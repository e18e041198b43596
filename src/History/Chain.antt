-- ===== src/History/Chain.antt =====
-- What a verified chain of rotations is, apart from how own-history.ts builds it.
use undergroundbb.Base.{
  length, In, ℕ, suc, ◌-◌, ◌≡◌, true, false, List, [], ◌∷◌, Option, none, some, Text, Bytes, ◌<<◌,
}
use undergroundbb.Platform.{Platform}
use undergroundbb.Wire.Signature.{SigningContext, verify}
use undergroundbb.Payloads.{key_rotation_payload}
use undergroundbb.History.Records.{WireKeyChange, OwnKeyLink}
use undergroundbb.History.Roster.{signature_size, key_size, decode_sized, roster_digest}

module _ (platform : Platform) (user : Text) where
  -- Both keys of the link signed it, its roster's digest, and the epoch before it.
  pub record IsSignedLink (link : OwnKeyLink) : Type 0 where
    pub digest : Bytes
    pub old_sig : Bytes
    pub new_sig : Bytes
    pub payload : Bytes
    pub covers :
        payload
        ≡ key_rotation_payload platform user link.old_signing link.old_wrapping link.new_signing
            link.new_wrapping link.day
            (link.epoch - 1)
            digest
    pub by_old : verify platform link.old_signing SigningContext.key_rotation payload old_sig ≡ true
    pub by_new : verify platform link.new_signing SigningContext.key_rotation payload new_sig ≡ true
    pub listed :
        (entries : List Bytes)
        → link.roster ≡ some entries
        → roster_digest platform entries ≡ digest

  -- A link starts at the keys, and not before the day, of the one before it.
  pub data Follows : Option OwnKeyLink → OwnKeyLink → Type 0 where
    starts : {link : OwnKeyLink} → Follows none link
    follows_on :
        {previous link : OwnKeyLink}
        → previous.new_signing ≡ link.old_signing
        → previous.new_wrapping ≡ link.old_wrapping
        → (link.day << previous.day) ≡ false
        → Follows (some previous) link

  -- The links from the one of epoch `i + 1` on, which end at the key `own`.
  pub data IsChain (own : Bytes) : ℕ → Option OwnKeyLink → List OwnKeyLink → Type 0 where
    never : {i : ℕ} → IsChain own i none []
    ended : {i : ℕ} {last : OwnKeyLink} → last.new_signing ≡ own → IsChain own i (some last) []
    linked :
        {i : ℕ} {previous : Option OwnKeyLink} {link : OwnKeyLink} {links : List OwnKeyLink}
        → link.epoch ≡ suc i
        → IsSignedLink link
        → Follows previous link
        → IsChain own (suc i) (some link) links
        → IsChain own i previous (link ∷ links)

-- The link stands among the links, with the day of the one before it.
pub data Stands (link : OwnKeyLink) (introduced : Option Text)
    : Option Text → List OwnKeyLink → Type 0 where
  here :
      {before : Option Text} {l : OwnKeyLink} {ls : List OwnKeyLink}
      → before ≡ introduced
      → l ≡ link
      → Stands link introduced before (l ∷ ls)
  there :
      {before : Option Text} {l : OwnKeyLink} {ls : List OwnKeyLink}
      → Stands link introduced (some l.day) ls
      → Stands link introduced before (l ∷ ls)

-- The link says what the served change says, and the change's own signatures are the link's.
pub record IsLinkOf (platform : Platform) (user : Text) (c : WireKeyChange) (link : OwnKeyLink)
    : Type 0 where
  pub epoch : link.epoch ≡ c.key_epoch
  pub day : link.day ≡ c.day
  pub old_signing : decode_sized platform key_size c.old_signing_public_key ≡ some link.old_signing
  pub old_wrapping :
      decode_sized platform key_size c.old_wrapping_public_key ≡ some link.old_wrapping
  pub new_signing : decode_sized platform key_size c.new_signing_public_key ≡ some link.new_signing
  pub new_wrapping :
      decode_sized platform key_size c.new_wrapping_public_key ≡ some link.new_wrapping
  pub signed : IsSignedLink platform user link
  pub digest : decode_sized platform 32 c.roster_digest ≡ some signed.digest
  pub old_sig : decode_sized platform signature_size c.old_signature ≡ some signed.old_sig
  pub new_sig : decode_sized platform signature_size c.new_signature ≡ some signed.new_sig

-- The links are those of the served changes: each change has its link, each link is of a change, and
-- there are as many of the ones as of the others.
pub record IsServed (platform : Platform) (user : Text) (changes : List WireKeyChange)
    (links : List OwnKeyLink) : Type 0 where
  pub each_change :
      (c : WireKeyChange)
      → In c changes
      → (link : OwnKeyLink) × In link links × IsLinkOf platform user c link
  pub each_link :
      (link : OwnKeyLink)
      → In link links
      → (c : WireKeyChange) × In c changes × IsLinkOf platform user c link
  pub as_many : length links ≡ length changes
