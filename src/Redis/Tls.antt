-- ===== src/Redis/Tls.antt =====
-- `NewTLSConfig` of internal/redis/client.go. The certificates and the files belong to crypto/tls,
-- crypto/x509 and os: their answers are parameters.
use kubernetes_redis_operato.Prelude.{ℕ, Option, none, some, List, [], ◌∷◌, ◌⊎◌, inl, inr}
use kubernetes_redis_operato.Go.Text.{Str}
use kubernetes_redis_operato.Redis.Effect.{Error}

-- Loading a pair of files, reading a file, and a pool with the certificates of a text, if it has any.
pub record Crypto (Certificate Pool : Type 0) : Type 0 where
  pub load_x509_key_pair : Str → Str → Error ⊎ Certificate
  pub read_file : Str → Error ⊎ Str
  pub append_certs_from_pem : Str → Option Pool

-- `tls.Config`, with the fields that are set.
pub record TlsConfig (Certificate Pool : Type 0) : Type 0 where
  pub certificates : List Certificate
  pub root_cas : Pool
  pub min_version : ℕ

module _ {Certificate Pool : Type 0} (crypto : Crypto Certificate Pool) where
  -- `tls.VersionTLS12` is 0x0303.
  abbrev with_pool : Certificate → Option Pool → Error ⊎ (TlsConfig Certificate Pool)
  with_pool cert none = inl Error.bad_ca
  with_pool cert (some pool) =
      inr (record { certificates = cert ∷ []; root_cas = pool; min_version = 0x0303 })

  abbrev with_ca : Certificate → Error ⊎ Str → Error ⊎ (TlsConfig Certificate Pool)
  with_ca cert (inl e) = inl (Error.reading_ca e)
  with_ca cert (inr pem) = with_pool cert (crypto.append_certs_from_pem pem)

  abbrev with_key_pair : Str → Error ⊎ Certificate → Error ⊎ (TlsConfig Certificate Pool)
  with_key_pair ca (inl e) = inl (Error.loading_key_pair e)
  with_key_pair ca (inr cert) = with_ca cert (crypto.read_file ca)

  unfoldable pub new_tls_config : Str → Str → Str → Error ⊎ (TlsConfig Certificate Pool)
  new_tls_config cert key ca = with_key_pair ca (crypto.load_x509_key_pair cert key)
