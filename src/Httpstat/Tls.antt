-- ===== src/Httpstat/Tls.antt =====
-- cmd/httpstat/main.go: the client certificate and the TLS configuration of `visit`. The file, the
-- decoder of package pem, the making of a key pair and `net.SplitHostPort` are arguments.
pub mod Blocks
use sockstats.Common.Text.{Text, codes, has_suffix, same_text}
use sockstats.Common.{
  ℕ, zero, suc, Bool, Option, none, some, List, [], ◌∷◌, ◌++◌, ◌==◌, Result, ok, err, length,
  if◌then◌else◌,
}

-- A block of a PEM file: its type, and what `pem.EncodeToMemory` makes of it.
pub record Block : Type 0 where
  pub block_type : Text
  pub encoded : Text

-- The two variables of the loop, of which an empty one is nil.
pub record Pems : Type 0 where
  pub pkey_pem : Text
  pub cert_pem : Text

abbrev pub Decoder : Type 0
Decoder = Text → Option (Block × Text)

-- The two tests of the loop.
unfoldable pub take_block : Block → Pems → Pems
take_block block pems =
    let keyed : Pems =
      if has_suffix block.block_type (codes "PRIVATE KEY")
      then record pems { pkey_pem = block.encoded }
      else pems in
    if has_suffix block.block_type (codes "CERTIFICATE")
    then record keyed { cert_pem = block.encoded }
    else keyed

-- The loop, on fuel: each block takes one.
unfoldable pub read_blocks : ℕ → Decoder → Text → Pems → Option Pems
unfolding take_block
read_blocks zero decode bytes pems = none
read_blocks (suc fuel) decode bytes pems = elim (decode bytes) [
  | none ↦ some pems
  | some (block, rest) ↦ read_blocks fuel decode rest (take_block block pems)
]

module _ {Cert : Type 0} where
  abbrev pub certificates_of : Result Text Cert → Result Text (List Cert)
  certificates_of (err e) = err (codes "unable to load client cert and key pair: " ++ e)
  certificates_of (ok cert) = ok (cert ∷ [])

  abbrev pub load_pair :
      (Text → Text → Result Text Cert) → Option Pems → Option (Result Text (List Cert))
  load_pair key_pair none = none
  load_pair key_pair (some pems) = some (certificates_of (key_pair pems.cert_pem pems.pkey_pem))

  abbrev pub with_file :
      ℕ
      → Decoder
      → (Text → Text → Result Text Cert)
      → Result Text Text
      → Option (Result Text (List Cert))
  with_file fuel decode key_pair (err e) =
      some (err (codes "failed to read client certificate file: " ++ e))
  with_file fuel decode key_pair (ok bytes) =
      load_pair key_pair (read_blocks fuel decode bytes (record { pkey_pem = []; cert_pem = [] }))

  -- `readClientCert`, on the fuel of its loop; an error ends the program.
  unfoldable pub read_client_cert :
      ℕ
      → (Text → Result Text Text)
      → Decoder
      → (Text → Text → Result Text Cert)
      → Text
      → Option (Result Text (List Cert))
  unfolding read_blocks
  read_client_cert fuel read_file decode key_pair [] = some (ok [])
  read_client_cert fuel read_file decode key_pair (c ∷ filename) =
      with_file fuel decode key_pair (read_file (c ∷ filename))

-- The versions of TLS that package tls numbers.
abbrev pub version_tls_12 : ℕ
version_tls_12 = 0x0303

abbrev pub version_tls_13 : ℕ
version_tls_13 = 0x0304

-- The `tls.Config` of a transport.
pub record TlsConfig (Cert : Type 0) : Type 0 where
  pub server_name : Text
  pub insecure_skip_verify : Bool
  pub certificates : List Cert
  pub min_version : ℕ

-- The host of the request without its port, if it has one.
abbrev pub host_or : Text → Option (Text × Text) → Text
host_or host none = host
host_or host (some (name, port)) = name

-- The switch over the scheme: other schemes than https have no configuration.
unfoldable pub tls_config :
    {Cert : Type 0}
    → (Text → Option (Text × Text))
    → Bool
    → Text
    → Text
    → List Cert
    → Option (TlsConfig Cert)
tls_config split_host_port insecure scheme host certs =
    if same_text scheme (codes "https")
    then some (record {
      server_name = host_or host (split_host_port host);
      insecure_skip_verify = insecure;
      certificates = certs;
      min_version = version_tls_12;
    })
    else none

-- The text behind "Connected via", from the version of `resp.TLS`.
unfoldable pub connected_via : Option ℕ → Text
connected_via none = codes "plaintext"
connected_via (some version) =
    if version == version_tls_12
    then codes "TLSv1.2"
    else if version == version_tls_13
    then codes "TLSv1.3"
    else codes "plaintext"
