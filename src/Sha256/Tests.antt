-- ===== src/Sha256/Tests.antt =====
-- Tests of SHA-256, on the message "abc" of FIPS 180-4.
use lufira_os.Base.{
  ℕ, ◌%◌, ◌^◌, ◌≡◌, refl, List, [], ◌∷◌, ◌++◌, length, take, true, replicate, arith,
}
use lufira_os.Sha256.{
  Context, constants, sha256, sha256_init, sha256_update, sha256_final, digest, compress, rounds,
  round, extend, next_word, load_words, add32, rotr32, not32, put, whole_blocks, update_aligned,
  big_endian, close_block,
}
use lufira_os.Sha256.Constants.{primes, are_root_fractions, words_of}
use lufira_os.Sha256.Stream.{absorb_all}
use lufira_os.Sha256.Padding.{padding}
use lufira_os.Sha256.Message.{sha256_lem, sha256_update-append}

abbrev blank : Context
blank = record {
  state = record { a = 0; b = 0; c = 0; d = 0; e = 0; f = 0; g = 0; h = 0 };
  total_len = 0;
  block_len = 0;
  block = replicate 64 7;
}

abbrev abc : List ℕ
abc = 97 ∷ 98 ∷ 99 ∷ []

digest_of_abc :
    sha256 blank abc
    ≡ big_endian 32 0xba7816bf8f01cfea414140de5dae2223b00361a396177a9cb410ff61f20015ad
unfolding sha256 sha256_init sha256_update sha256_final digest compress rounds round extend
    next_word load_words add32 rotr32 not32 put whole_blocks update_aligned big_endian close_block
digest_of_abc = refl

sha256_lem_example :
    (sha256 blank abc
      ≡ digest
          (absorb_all
            ((sha256_init blank).state, [])
            (abc ++ padding (length abc % 64) (length abc % 2 ^ 64))).0)
    × (are_root_fractions 2 (take 8 primes) (words_of (sha256_init blank).state) ≡ true)
    × (are_root_fractions 3 primes constants ≡ true)
sha256_lem_example = sha256_lem blank abc refl

-- A message that fills the buffer across two calls.
abbrev half_full : Context
half_full = record blank { total_len = 62; block_len = 62 }

sha256_update-append_example :
    sha256_final (sha256_update (sha256_update half_full abc) (replicate 70 1))
    ≡ sha256_final (sha256_update half_full (abc ++ replicate 70 1))
sha256_update-append_example =
    sha256_update-append half_full abc (replicate 70 1)
      (record { buffer = refl; part = omega arith })
