-- ===== src/Grant/Judged.antt =====
-- What a `valid` verdict says of each stage of the verifier.
use undergroundbb.Base.{
  In, first, ◌>>=◌, >>=-eq-some, ℕ, ◌≡◌, refl, inl, inr, Bool, true, false, List, [], ◌∷◌, Option,
  none, some, arith, Text, Bytes, ◌===◌, ===_iff, any-In, Bool-cases, Option-cases,
}
use undergroundbb.Platform.{Platform}
use undergroundbb.Wire.Encoding.{decode}
use undergroundbb.Wire.Signature.{SigningContext, verify}
use undergroundbb.Grant.Records.{
  GrantRecord, UserKeyHistory, GrantChainInput, Party, GrantVerdict, valid,
}
use undergroundbb.Grant.SortKey.{parse_sort_key}
use undergroundbb.Grant.Keys.{keys_on_day, signed_on_day}
use undergroundbb.Grant.Scan.{Act, Latest, nothing_yet, scan}
use undergroundbb.Grant.Scan.Laws.{Scanned, scan-Scanned}
use undergroundbb.Grant.Verify.{duplicated, signature_verdict, judge, compute_signed, compute}
use undergroundbb.Grant.Rules.{IsRow, IsSigned}

module _ (platform : Platform) (input : GrantChainInput) where
  IsSigned-by_key :
      (user : Text) (history : UserKeyHistory) (day : ℕ) (context : SigningContext)
      (payload sig : Bytes)
      → input.key_histories user ≡ some history
      → signed_on_day platform history day context payload sig ≡ true
      → IsSigned platform input user day context payload sig
  unfolding signed_on_day
  IsSigned-by_key user history day context payload sig known e =
      let (key, held, verifies) =
        any-In (λ key. verify platform key context payload sig) (keys_on_day platform history day)
          e in
      record { history = history; known = known; key = key; held = held; verifies = verifies }

  pub signature_valid :
      (who : Party) (user : Text) (day : ℕ) (context : SigningContext) (payload sig : Bytes)
      → signature_verdict platform input who user
          (λ history. signed_on_day platform history day context payload sig)
        ≡ valid
      → IsSigned platform input user day context payload sig
  unfolding signature_verdict
  signature_valid who user day context payload sig e =
      elim (Option-cases (input.key_histories user)) [
        | inl unknown ↦ absurd (cc (rw (unknown, signature_verdict) at e))
        | inr (history, known) ↦
            elim (Bool-cases (signed_on_day platform history day context payload sig)) [
              | inl signed ↦ IsSigned-by_key user history day context payload sig known signed
              | inr unsigned ↦ absurd (cc (rw (known, unsigned, signature_verdict) at e))
            ]
      ]

  -- The facts behind a `valid` of `judge`.
  pub record IsJudged (rec : GrantRecord → Option GrantVerdict) (role_fits : Text → Bool)
      (ref : Text) (l : Latest) : Type 0 where
    pub current : GrantRecord
    pub only : l.grants ≡ current ∷ []
    pub cited : ref ≡ current.sort_key
    pub fits : role_fits current.granted_role ≡ true
    pub own_valid : rec current ≡ some valid

  pub judged_In :
      {rec : GrantRecord → Option GrantVerdict} {role_fits : Text → Bool} {ref : Text} {l : Latest}
      (j : IsJudged rec role_fits ref l)
      → In j.current l.grants
  judged_In j = rw j.only (first refl)

  judge_one :
      (rec : GrantRecord → Option GrantVerdict) (who : Party) (role_fits : Text → Bool) (ref : Text)
      (signature : GrantVerdict) (l : Latest) (current : GrantRecord) (more : List GrantRecord)
      → l.grants ≡ current ∷ more
      → judge platform input rec who role_fits ref signature (some l) ≡ some valid
      → (more ≡ [])
        × ((ref === current.sort_key) ≡ true)
        × (role_fits current.granted_role ≡ true)
        × (rec current ≡ some valid)
        × (signature ≡ valid)
  unfolding judge
  judge_one rec who role_fits ref signature l current more listed e = ground (arith, listed, e)

  pub judge_valid :
      (rec : GrantRecord → Option GrantVerdict) (who : Party) (role_fits : Text → Bool) (ref : Text)
      (signature : GrantVerdict) (l : Option Latest)
      → judge platform input rec who role_fits ref signature l ≡ some valid
      → (found : Latest) × (l ≡ some found) × IsJudged rec role_fits ref found × (signature ≡ valid)
  unfolding judge
  judge_valid rec who role_fits ref signature none e = cc
  judge_valid rec who role_fits ref signature (some l) e = by_list l.grants refl
    where
      by_list :
          (gs : List GrantRecord)
          → l.grants ≡ gs
          → (found : Latest) × (some l ≡ some found)
            × IsJudged rec role_fits ref found
            × (signature ≡ valid)
      by_list [] p = absurd (cc (rw (p, judge) at e))
      by_list (current ∷ more) p =
          let (no_more, cited, fits, own, signed) =
            judge_one rec who role_fits ref signature l current more p e in
          (
            l,
            refl,
            record {
              current = current;
              only = rw (← no_more) p;
              cited = (===_iff ref current.sort_key).0 cited;
              fits = fits;
              own_valid = own;
            },
            signed,
          )

  -- The same for the loop and what follows it.
  pub scan-IsJudged :
      (body : GrantRecord → Option Act) (gs : List GrantRecord)
      (rec : GrantRecord → Option GrantVerdict) (who : Party) (role_fits : Text → Bool) (ref : Text)
      (signature : GrantVerdict)
      → (scan body gs nothing_yet >>= judge platform input rec who role_fits ref signature)
        ≡ some valid
      → (l : Latest) × Scanned body gs nothing_yet l
        × IsJudged rec role_fits ref l
        × (signature ≡ valid)
  scan-IsJudged body gs rec who role_fits ref signature e =
      let (scanned, ran, judged) =
        >>=-eq-some (scan body gs nothing_yet)
          (judge platform input rec who role_fits ref signature) e in
      let (l, ended, j, signed) = judge_valid rec who role_fits ref signature scanned judged in
      (l, scan-Scanned body gs nothing_yet l (cc (ran, ended)), j, signed)

  -- The facts behind a `valid` of `compute`, up to the checks of the row itself.
  pub IsRow-valid :
      (rec : GrantRecord → Option GrantVerdict) (g : GrantRecord)
      → compute platform input rec g ≡ some valid
      → (day : ℕ) × (sig : Bytes) × IsRow platform input g day sig
        × (compute_signed platform input rec g day sig ≡ some valid)
  unfolding compute
  IsRow-valid rec g e = elim (Option-cases (parse_sort_key platform g.sort_key)) [
    | inl malformed ↦ absurd (ground (arith, malformed, e))
    | inr (key, parses) ↦ elim (Option-cases (decode platform (some g.signature))) [
      | inl malformed ↦ absurd (ground (arith, parses, malformed, e))
      | inr (sig, decodes) ↦
          let facts : (duplicated g.sort_key input.grants ≡ false)
              × ((key.subject === g.subject_user_id) ≡ true)
              × (compute_signed platform input rec g key.day sig ≡ some valid) =
            ground (arith, parses, decodes, e) in
          (
            key.day,
            sig,
            record {
              unique = facts.0;
              dated = record { key = key; parses = parses; is_day = refl };
              own_subject = (===_iff key.subject g.subject_user_id).0 facts.1;
              signature = decodes;
            },
            facts.2,
          )
    ]
  ]
