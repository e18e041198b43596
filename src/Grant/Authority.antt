-- ===== src/Grant/Authority.antt =====
-- Where the authority of a valid grant comes from.
use undergroundbb.Base.{
  In-keep, keep-In, ℕ, ◌≡◌, ◌≢◌, ◌⊎◌, inl, inr, true, false, List, some, arith, Text, codes, ◌===◌,
  ===_iff, In,
}
use undergroundbb.Platform.{Platform}
use undergroundbb.Grant.Records.{GrantRecord, GrantChainInput, valid}
use undergroundbb.Grant.Scan.{grants_to}
use undergroundbb.Grant.Verify.{anchor_valid, pin_mismatch, verify_one}
use undergroundbb.Grant.Rules.{IsRoot, Justified, root, granted, demoted, claimed}
use undergroundbb.Grant.Sound.{verify_one_sound}

pub In-grants_to :
    (user : Text) (gs : List GrantRecord) {g : GrantRecord}
    → In g gs
    → g.subject_user_id ≡ user
    → In g (grants_to user gs)
unfolding grants_to
In-grants_to user gs {g} m e =
    In-keep (λ o. o.subject_user_id === user) gs m ((===_iff g.subject_user_id user).1 e)

pub grants_to-In :
    (user : Text) (gs : List GrantRecord) {g : GrantRecord} → In g (grants_to user gs) → In g gs
unfolding grants_to
grants_to-In user gs m = (keep-In (λ o. o.subject_user_id === user) gs m).0

module _ (platform : Platform) (input : GrantChainInput) where
  Justified-IsRoot :
      {g : GrantRecord} → Justified platform input g → (r : GrantRecord) × IsRoot platform input r
  Justified-IsRoot (root {g} r) = (g, r)
  Justified-IsRoot (granted day h others j) = Justified-IsRoot j
  Justified-IsRoot (demoted day h j) = Justified-IsRoot j
  Justified-IsRoot (claimed from day served h c j) = Justified-IsRoot j

  -- If any row at all is found valid, then the chain has a root: a self-signed admin grant of the
  -- creator, under an anchor whose signature verifies, which is not at odds with the pinned anchor,
  -- and whose key is one that the creator held on the root's day.
  pub valid_has-IsRoot :
      (depth : ℕ) (g : GrantRecord)
      → verify_one platform input depth g ≡ some valid
      → (r : GrantRecord) × IsRoot platform input r
  valid_has-IsRoot depth g e = Justified-IsRoot (verify_one_sound platform input depth g e)

  -- So with an anchor that does not match the pin, or that does not verify, no row is valid.
  pub bad_anchor_rejects_all :
      (depth : ℕ) (g : GrantRecord)
      → (pin_mismatch platform input ≡ true) ⊎ (anchor_valid platform input ≡ false)
      → verify_one platform input depth g ≢ some valid
  bad_anchor_rejects_all depth g bad e =
      let (r, is_root) = valid_has-IsRoot depth g e in
      elim bad [
        | inl mismatch ↦ cc (mismatch, is_root.no_pin_mismatch)
        | inr invalid ↦ cc (invalid, is_root.anchored)
      ]

  self_grant :
      (g : GrantRecord)
      → In g input.grants
      → Justified platform input g
      → g.grantor_user_id ≡ g.subject_user_id
      → (g.sort_key ≡ input.anchor.root_grant_sort_key) ⊎ (g.granted_role ≡ codes "member")
  self_grant g m (root r) self = inl r.is_root
  self_grant g m (granted day h others j) self = absurd (h.by_another self)
  self_grant g m (demoted day h j) self = inr h.to_member
  self_grant g m (claimed {d} from day served h c j) self = absurd (
      c.admin_untouched g day
        (In-grants_to d.admin_user_id input.grants m (cc (self, c.names_admin))) c.row.dated
        (omega (arith, c.elapsed)) (omega arith))

  -- Nobody raises themselves: a valid row whose grantor is its own subject is the root grant, or
  -- gives the role of a plain member, also where it claims to rest on a designation.
  pub no_self_promotion :
      (depth : ℕ) (g : GrantRecord)
      → In g input.grants
      → g.grantor_user_id ≡ g.subject_user_id
      → verify_one platform input depth g ≡ some valid
      → (g.sort_key ≡ input.anchor.root_grant_sort_key) ⊎ (g.granted_role ≡ codes "member")
  no_self_promotion depth g m self e =
      self_grant g m (verify_one_sound platform input depth g e) self
