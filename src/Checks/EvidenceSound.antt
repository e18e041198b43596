-- ===== src/Checks/EvidenceSound.antt =====
-- What a claim of a signed rotation rests on.
use undergroundbb.History.Served.{build_own_key_history-IsServed}
use undergroundbb.Base.{
  ==_iff, ℕ, suc, ◌≡◌, inl, inr, sym, subst, true, List, [], Option, none, some, arith, Text, Bytes,
  Bool-cases, Option-cases, ===_iff, In, first, later, any-In, find-In, any, find, and-eq_true,
}
use undergroundbb.Platform.{Platform}
use undergroundbb.History.Records.{WireKeyChange, OwnKeyHistory, OwnKeyLink}
use undergroundbb.History.Chain.{IsServed, IsChain, IsSignedLink, linked, never, ended}
use undergroundbb.History.Build.{build_own_key_history}
use undergroundbb.History.Sound.{build_own_key_history-IsChain}
use undergroundbb.Checks.Evidence.{
  signed_rotation, same_bytes, is_next, decode_evidence, judge_link, key_change_evidence,
}

pub same_bytes_sound : (a b : Bytes) → same_bytes a b ≡ true → a ≡ b
unfolding same_bytes
same_bytes_sound a b e = (===_iff a b).0 (and-eq_true _ _ e).1

-- Every link of a chain is signed by both its keys.
IsChain-In :
    (platform : Platform) (user : Text) (own : Bytes) {i : ℕ} {previous : Option OwnKeyLink}
    {link : OwnKeyLink} {links : List OwnKeyLink}
    → IsChain platform user own i previous links
    → In link links
    → IsSignedLink platform user link
IsChain-In platform user own never m = elim m [ ]
IsChain-In platform user own (ended e) m = elim m [ ]
IsChain-In platform user own (linked at signed follows rest) (first e) =
    subst (IsSignedLink platform user) (sym e) signed
IsChain-In platform user own (linked at signed follows rest) (later m) =
    IsChain-In platform user own rest m

-- The rotations, all of them, form a verified chain that ends at the key `current`, in which the one
-- right after the pinned epoch starts at a pinned key and is signed by that key and by its successor.
pub record IsSignedRotation (platform : Platform) (user : Text) (changes : List WireKeyChange)
    (pin_epoch : ℕ) (current : Bytes) (pinned : List Bytes) : Type 0 where
  pub links : List OwnKeyLink
  pub chain : IsChain platform user current 0 none links
  pub served : IsServed platform user changes links
  pub link : OwnKeyLink
  pub on_chain : In link links
  pub signed : IsSignedLink platform user link
  pub next : link.epoch ≡ suc pin_epoch
  pub from_pinned : In link.old_signing pinned

judge_link_sound :
    (platform : Platform) (user : Text) (changes : List WireKeyChange) (pin_epoch : ℕ)
    (current : Bytes) (pinned : List Bytes) (history : OwnKeyHistory)
    → IsChain platform user current 0 none history.links
    → IsServed platform user changes history.links
    → judge_link platform pinned (find (λ l. is_next pin_epoch l.epoch) history.links)
      ≡ signed_rotation
    → IsSignedRotation platform user changes pin_epoch current pinned
unfolding judge_link is_next
judge_link_sound platform user changes pin_epoch current pinned history chain served e =
    elim (Option-cases (find (λ l. is_next pin_epoch l.epoch) history.links)) [
      | inl nothing ↦ absurd (ground (arith, nothing, e))
      | inr (link, found) ↦ elim (Bool-cases (any (λ k. same_bytes link.old_signing k) pinned)) [
        | inr other ↦ absurd (ground (arith, found, other, e))
        | inl held ↦
            let (m, is_it) = find-In (λ l. is_next pin_epoch l.epoch) history.links found in
            let (k, k_pinned, same) = any-In (λ k. same_bytes link.old_signing k) pinned held in
            record {
              links = history.links;
              chain = chain;
              served = served;
              link = link;
              on_chain = m;
              signed = IsChain-In platform user current chain m;
              next = (==_iff link.epoch (suc pin_epoch)).0 is_it;
              from_pinned =
                  subst (λ x. In x pinned) (sym (same_bytes_sound link.old_signing k same))
                    k_pinned;
            }
      ]
    ]

-- A key change is called a signed rotation only if the served rotations, each of them a link and no
-- others, form a verified chain that ends at the served key, in which the rotation right after the
-- pinned epoch starts at a pinned key and is signed by it.
pub key_change_evidence_sound :
    (platform : Platform) (user : Text) (pinned_keys : List Text) (pin_epoch : ℕ)
    (served_key : Text) (changes : List WireKeyChange)
    → key_change_evidence platform user pinned_keys pin_epoch served_key changes ≡ signed_rotation
    → (current : Bytes) × (pinned : List Bytes) × (decode_evidence platform served_key pinned_keys
        ≡ some (current, pinned))
      × IsSignedRotation platform user changes pin_epoch current pinned
unfolding key_change_evidence
key_change_evidence_sound platform user pinned_keys pin_epoch served_key changes e =
    elim (Option-cases (decode_evidence platform served_key pinned_keys)) [
      | inl malformed ↦ absurd (ground (arith, malformed, e))
      | inr (d, decoded) ↦
          elim (Option-cases (build_own_key_history platform user d.0 changes [])) [
            | inl broken ↦ absurd (ground (arith, decoded, broken, e))
            | inr (history, built) ↦ (
              d.0,
              d.1,
              decoded,
              judge_link_sound platform user changes pin_epoch d.0 d.1 history
                  (build_own_key_history-IsChain platform user d.0 changes [] history built).1
                  (build_own_key_history-IsServed platform user d.0 changes [] history built)
                  (ground (arith, decoded, built, e)),
            )
          ]
    ]
