-- ===== src/Handlers/Signature.antt =====
-- src/handlers.rs: what a request must carry to be taken as one of GitHub's.
use gitvote.Prelude.{
  ◌≡◌, refl, ◌↔◌, true, Option, none, some, Str, arith, Option-cases, Bool-cases, inl, inr,
}
use gitvote.World.{Env}
use gitvote.Handlers.{signature_bytes, verifies, verify_fallback, verify_signature}

module _ {F : Type 0} (env : Env F) where
  -- The signature is the digest of the body by the secret, or by the fallback secret if there is one.
  pub data IsSigned (secret : Str) (fallback : Option Str) (body signature : Str) : Type 0 where
    primary : env.hmac_sha256 secret body ≡ signature → IsSigned secret fallback body signature
    secondary :
        (other_secret : Str)
        → fallback ≡ some other_secret
        → env.hmac_sha256 other_secret body ≡ signature
        → IsSigned secret fallback body signature

  -- The header is `sha256=` and the hexadecimal digits of such a signature.
  abbrev pub IsAuthentic : Option Str → Str → Option Str → Str → Type 0
  IsAuthentic header secret fallback body =
      (signature : Str) × (signature_bytes env header ≡ some signature)
      × IsSigned secret fallback body signature

  verifies-eq :
      (secret body signature : Str)
      → verifies env secret body signature ≡ true
      → env.hmac_sha256 secret body ≡ signature
  unfolding verifies
  verifies-eq secret body signature h = ground arith

  eq-verifies :
      (secret body signature : Str)
      → env.hmac_sha256 secret body ≡ signature
      → verifies env secret body signature ≡ true
  unfolding verifies
  eq-verifies secret body signature h = ground arith

  verify_fallback-IsSigned :
      (secret : Str) (fallback : Option Str) (body signature : Str)
      → verify_fallback env fallback body signature ≡ true
      → IsSigned secret fallback body signature
  unfolding verify_fallback
  verify_fallback-IsSigned secret none body signature h = absurd (ground arith)
  verify_fallback-IsSigned secret (some other_secret) body signature h =
      secondary other_secret refl (verifies-eq other_secret body signature h)

  IsSigned-verify :
      (header : Option Str) (secret : Str) (fallback : Option Str) (body signature : Str)
      → signature_bytes env header ≡ some signature
      → IsSigned secret fallback body signature
      → verify_signature env header secret fallback body ≡ true
  unfolding verify_signature verify_fallback
  IsSigned-verify header secret fallback body signature e (primary h) =
      ground (arith, eq-verifies secret body signature h)
  IsSigned-verify header secret fallback body signature e (secondary other_secret f h) =
      ground (arith, eq-verifies other_secret body signature h)

  verify-IsAuthentic :
      (header : Option Str) (secret : Str) (fallback : Option Str) (body : Str)
      → verify_signature env header secret fallback body ≡ true
      → IsAuthentic header secret fallback body
  unfolding verify_signature
  verify-IsAuthentic header secret fallback body h =
      elim (Option-cases (signature_bytes env header)) [
        | inl e ↦ absurd (ground arith)
        | inr (signature, e) ↦ elim (Bool-cases (verifies env secret body signature)) [
          | inl v ↦ (signature, e, primary (verifies-eq secret body signature v))
          | inr v ↦
              (signature, e, verify_fallback-IsSigned secret fallback body signature (ground arith))
        ]
      ]

  -- A request is accepted exactly if its header holds the digest of its body by the secret, or by the
  -- fallback secret where one is configured.
  pub verify_signature-true_iff :
      (header : Option Str) (secret : Str) (fallback : Option Str) (body : Str)
      → (verify_signature env header secret fallback body ≡ true)
        ↔ IsAuthentic header secret fallback body
  verify_signature-true_iff header secret fallback body = (
    verify-IsAuthentic header secret fallback body,
    λ (signature, e, s). IsSigned-verify header secret fallback body signature e s,
  )
