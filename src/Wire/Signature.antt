-- ===== src/Wire/Signature.antt =====
-- ed25519.ts: the contexts that a signature may belong to, and `verify`.
use undergroundbb.Base.{
  ◌≡◌, ◌≢◌, refl, ap, Bool, false, not, List, [], ◌∷◌, ◌++◌, Option, none, some, arith, Text, Bytes,
  codes, length, find, All, ◌==◌, ◌===◌, ◌<◌, if◌then◌else◌,
}
use undergroundbb.Platform.{Platform}

pub data SigningContext : Type 0 where
  login_challenge post comment role_grant invite trust_anchor pin verification : SigningContext
  successor_designation successor_claim rotation_start rotation_rekey : SigningContext
  admission wrap_record key_rotation : SigningContext

unfoldable pub context_name : SigningContext → Text
context_name login_challenge = codes "underground-bb:login-challenge:v1"
context_name post = codes "underground-bb:post:v1"
context_name comment = codes "underground-bb:comment:v1"
context_name role_grant = codes "underground-bb:role-grant:v1"
context_name invite = codes "underground-bb:invite:v1"
context_name trust_anchor = codes "underground-bb:trust-anchor:v1"
context_name pin = codes "underground-bb:pin:v2"
context_name verification = codes "underground-bb:verification:v2"
context_name successor_designation = codes "underground-bb:successor-designation:v1"
context_name successor_claim = codes "underground-bb:successor-claim:v1"
context_name rotation_start = codes "underground-bb:rotation-start:v1"
context_name rotation_rekey = codes "underground-bb:rotation-rekey:v1"
context_name admission = codes "underground-bb:admission:v1"
context_name wrap_record = codes "underground-bb:wrap-record:v1"
context_name key_rotation = codes "underground-bb:key-rotation:v1"

or_false : Option Bool → Bool
or_false none = false
or_false (some b) = b

module _ (platform : Platform) where
  open platform use {utf8, ed25519_verify}

  unfoldable pub contextualize : SigningContext → Bytes → Bytes
  contextualize ctx message = utf8 (context_name ctx) ++ (0 ∷ message)

  -- A key of another length, and an exception of the library, are refusals.
  unfoldable pub verify : Bytes → SigningContext → Bytes → Bytes → Bool
  unfolding or_false contextualize
  verify public_key ctx message signature =
      if not (length public_key == 32)
      then false
      else or_false (ed25519_verify signature (contextualize ctx message) public_key)

contexts : List SigningContext
contexts =
    login_challenge ∷ post ∷ comment ∷ role_grant ∷ invite ∷ trust_anchor ∷ pin ∷ verification
    ∷ successor_designation ∷ successor_claim ∷ rotation_start ∷ rotation_rekey ∷ admission
    ∷ wrap_record ∷ key_rotation ∷ []

named : Text → Option SigningContext
named s = find (λ c. context_name c === s) contexts

named-context_name : (c : SigningContext) → named (context_name c) ≡ some c
unfolding named context_name contexts find ◌===◌
named-context_name login_challenge = refl
named-context_name _ = refl

context_name_injective : (c d : SigningContext) → context_name c ≡ context_name d → c ≡ d
context_name_injective c d e = cc (named-context_name c, named-context_name d, ap named e)

abbrev pub IsAscii : Text → Type 0
IsAscii = All (λ c. c < 128)

abbrev NoNul : Text → Type 0
NoNul = All (λ c. c ≢ 0)

context_name-IsAscii : (c : SigningContext) → IsAscii (context_name c)
unfolding context_name
context_name-IsAscii login_challenge = omega arith
context_name-IsAscii _ = omega arith

context_name-NoNul : (c : SigningContext) → NoNul (context_name c)
unfolding context_name
context_name-NoNul login_challenge = omega arith
context_name-NoNul _ = omega arith

split_at_nul :
    (a b m n : Bytes) → NoNul a → NoNul b → a ++ (0 ∷ m) ≡ b ++ (0 ∷ n) → (a ≡ b) × (m ≡ n)
split_at_nul [] [] m n p q h = (refl, cc)
split_at_nul [] (y ∷ b) m n p (q, qs) h = absurd (q (cc))
split_at_nul (x ∷ a) [] m n (p, ps) q h = absurd (p (cc))
split_at_nul (x ∷ a) (y ∷ b) m n (p, ps) (q, qs) h =
    let (same, rest) = split_at_nul a b m n ps qs (cc) in (cc, rest)

-- Where UTF-8 leaves ASCII text as it is, the bytes that are signed for a message under one context
-- are those of no other context and no other message, so a signature cannot be replayed across
-- contexts.
pub contextualize_injective :
    (platform : Platform)
    → ((s : Text) → IsAscii s → platform.utf8 s ≡ s)
    → (c d : SigningContext) (m n : Bytes) → contextualize platform c m ≡ contextualize platform d n
    → (c ≡ d) × (m ≡ n)
unfolding contextualize
contextualize_injective platform ascii c d m n h =
    let cs = ascii (context_name c) (context_name-IsAscii c) in
    let ds = ascii (context_name d) (context_name-IsAscii d) in
    let (names, messages) =
      split_at_nul (context_name c) (context_name d) m n (context_name-NoNul c)
        (context_name-NoNul d) (rw (cs, ds) at h) in
    (context_name_injective c d names, messages)
