-- ===== src/Httpstat/Tls/Blocks.antt =====
-- cmd/httpstat/main.go: `readClientCert` comes to an end, and what it loads.
use sockstats.Common.Text.{Text, codes, has_suffix}
use sockstats.Common.{
  ℕ, zero, suc, ◌<◌, ◌≡◌, ap, ◌∙◌, Option, none, some, List, [], ◌∷◌, Result, ok, length, picks,
  last_or, or_old, fold_items, fold_items-or_old, arith, Option-cases, inl, inr, if◌then◌else◌,
}
use sockstats.Httpstat.Tls.{
  Block, Pems, Decoder, take_block, read_blocks, certificates_of, load_pair, with_file,
  read_client_cert,
}

-- The blocks that a decoder finds in a file, one behind the other.
pub data Blocks (decode : Decoder) : Text → List Block → Type 0 where
  no_block : (bytes : Text) → decode bytes ≡ none → Blocks decode bytes []
  a_block :
      (bytes rest : Text) (block : Block) (blocks : List Block)
      → decode bytes ≡ some (block, rest)
      → Blocks decode rest blocks
      → Blocks decode bytes (block ∷ blocks)

-- What a block gives for the private key, and for the certificate.
abbrev pub key_of : Block → Option Text
key_of b = if has_suffix b.block_type (codes "PRIVATE KEY") then some b.encoded else none

abbrev pub cert_of : Block → Option Text
cert_of b = if has_suffix b.block_type (codes "CERTIFICATE") then some b.encoded else none

-- The rest behind a block is shorter than what the block was found in.
abbrev pub Shrinks : Decoder → Type 0
Shrinks decode =
    (bytes rest : Text) (block : Block)
    → decode bytes ≡ some (block, rest)
    → length rest < length bytes

abbrev kept : List Block → Pems → Pems
kept blocks pems = record {
  pkey_pem = fold_items (λ b. or_old (key_of b)) blocks pems.pkey_pem;
  cert_pem = fold_items (λ b. or_old (cert_of b)) blocks pems.cert_pem;
}

take_block_lem :
    (b : Block) (pems : Pems)
    → take_block b pems ≡ record {
      pkey_pem = or_old (key_of b) pems.pkey_pem;
      cert_pem = or_old (cert_of b) pems.cert_pem;
    }
unfolding take_block
take_block_lem b pems = ground arith

read_blocks-Blocks :
    (fuel : ℕ) (decode : Decoder) (bytes : Text) (pems : Pems)
    → Shrinks decode
    → length bytes < fuel
    → (blocks : List Block) × Blocks decode bytes blocks
      × (read_blocks fuel decode bytes pems ≡ some (kept blocks pems))
unfolding read_blocks
read_blocks-Blocks zero decode bytes pems h f = absurd (omega arith)
read_blocks-Blocks (suc fuel) decode bytes pems h f = elim (Option-cases (decode bytes)) [
  | inl e ↦ ([], no_block bytes e, rw (e, read_blocks))
  | inr ((block, rest), e) ↦
      let (blocks, found, ran) =
        read_blocks-Blocks fuel decode rest (take_block block pems) h
          (omega (arith, h bytes rest block e)) in
      (
        block ∷ blocks,
        a_block bytes rest block blocks e found,
        rw (e, read_blocks) (ran ∙ ap (λ p. some (kept blocks p)) (take_block_lem block pems)),
      )
]

-- With a decoder that leaves less than it was given: `readClientCert` comes to an end, with more
-- fuel than the file has bytes. It loads the last block of the file whose type ends in CERTIFICATE
-- with the last one whose type ends in PRIVATE KEY, whatever blocks stand around them.
pub read_client_cert-Blocks :
    {Cert : Type 0} (fuel : ℕ) (read_file : Text → Result Text Text) (decode : Decoder)
    (key_pair : Text → Text → Result Text Cert) (c : ℕ) (name bytes : Text)
    → Shrinks decode
    → read_file (c ∷ name) ≡ ok bytes
    → length bytes < fuel
    → (blocks : List Block) × Blocks decode bytes blocks
      × (read_client_cert fuel read_file decode key_pair (c ∷ name)
          ≡ some (
              certificates_of
                (key_pair (last_or [] (picks cert_of blocks)) (last_or [] (picks key_of blocks)))))
unfolding read_client_cert
read_client_cert-Blocks fuel read_file decode key_pair c name bytes h there f =
    let (blocks, found, ran) =
      read_blocks-Blocks fuel decode bytes (record { pkey_pem = []; cert_pem = [] }) h f in
    (
      blocks,
      found,
      ap (with_file fuel decode key_pair) there ∙ ap (load_pair key_pair) ran ∙ (λ i. some (
          certificates_of (
            key_pair (fold_items-or_old cert_of blocks [] i)
              (fold_items-or_old key_of blocks [] i)))),
    )
