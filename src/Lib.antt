-- ===== src/Lib.antt =====
-- A model of the client side of Underground BB (web/src/lib and web/src/routes), the part of the
-- program that does not trust its server: the client rebuilds each signed payload from the rows that
-- the server serves, and checks signatures, key intervals and the rules of the role chain before it
-- believes a role. The state machines of its screens are modelled too.
--
-- The parts, and where they stand in the repository (lib and routes are those of web/src):
--   Base       numbers, lists, options and texts that the other files share.
--   Platform   what the program takes from the browser and the @noble packages, as a record that the
--              definitions take as a parameter: Base64, UTF-8, SHA-256, Ed25519, dates.
--   Wire       lib/crypto/payload.ts, base64.ts and ed25519.ts: the length-prefixed encoding, the
--              contexts of signatures, the comparison of byte arrays.
--   Payloads   the signed payloads of lib/crypto/group.ts and key-rotation.ts.
--   Grant      lib/crypto/grant-chain.ts: verifyGrantChain and checkMemberRole. Records has the rows,
--              SortKey the two regular expressions, Keys keysOnDay, Scan the loop that looks for a
--              user's current grant, Verify the verifier, Roles checkMemberRole. Rules states the rules
--              of the chain as a relation; Sound, Authority, Backed, Depth and Circular relate the two.
--   History    lib/crypto/own-history.ts: buildOwnKeyHistory (Build), what is read off a history (Query),
--              and the rosters of key-rotation.ts. Chain states what a verified chain is, Served relates
--              its links to the rotations that were served, Held says which keys signingKeysOn gives.
--   Pin        lib/crypto/pin.ts: evaluatePin (Evaluate) and pinPayload; Sets has the set comparison.
--   Admission  lib/crypto/admission.ts: verifyAdmission, on the results of Grant and History.
--   Succession lib/groups/designation.ts: what a group's successor designations say right now.
--   Checks     the checks on top of History in lib/crypto: post-check.ts and comment-check.ts (Items),
--              wrap-record.ts (Wraps), key-change-evidence.ts (Evidence), verification.ts
--              (Verification). Signed says what it is to be signed by a user on a day.
--   Removal    lib/crypto/removal.ts: verifyRemovals. Index has its two maps, Marks one link, Run the
--              loop over the generations.
--   KeyBundle  lib/crypto/keybundle.ts: the bytes under which the private keys are wrapped (Layout).
--   Recovery   lib/crypto/recovery-code.ts: the writing of a recovery code (Encode); Value and Lossless
--              read it as a number, RoundTrip reads it back.
--   Screens    the state machines of routes: threadState.ts (Thread; ThreadSound and TakenBack
--              prove), commentControls.ts (Comments), postControls.ts (Posts), replyState.ts (Reply),
--              savedEdits.ts (SavedEdits), and the guards and the jobs of rotationJobs.ts (Guard, Members;
--              GuardLaws, Jobs, Guards).
--   Tests      concrete rows on a small stand-in for the platform.
--
-- Names are the source's in snake_case: verify_one is verifyOne, compute is compute. A text is the list
-- of its UTF-16 code units, a Uint8Array the list of its bytes, an instant the milliseconds since the
-- earliest Date. A function that throws gives none, a refusal is a constructor of Reason (the texts of
-- the refusals are not kept apart further than that).
--
-- verifyOne and verifyDesignation call each other without a guard against a cycle, so verify_one takes
-- a depth, the room on the call stack; none is the overflow. Depth.Total says which depth is enough:
-- each call goes to an earlier day, or to a self-demotion of the same day, so twice the day of a row and
-- one is a bound (Depth.Hops.rank). It is far from tight. The caches of verdicts are left out: a
-- verdict is computed again instead of looked up.
--
-- A JSON number is an integer of any size or one that is no integer, whose value is not kept: rounding
-- is not modelled, so a designation's period that is no integer gives no answer to whether it has
-- elapsed (Succession.Status.reached). Epochs and generations are natural numbers, and are written in
-- decimal at any size, where String would give an exponent from 1e21 on.
--
-- A listener of a rotation guard only takes note of the call. The one subscriber in the repository
-- (routes/GroupMembersScreen.tsx) asks for a new rendering; a listener that throws, or that calls the
-- guard before it returns, is outside the model.
--
-- An awaited call of a job stands for its result and for what other code does with the guard before
-- it returns, as a list of operations; no other interleaving touches what these files keep.
--
-- Not modelled: the Go server (internal, cmd), the other screens and flows of web/src/routes, the API
-- clients, and the parts of lib/crypto that encrypt, derive and wrap keys, which call WebCrypto and
-- argon2.
mod Base
pub mod Platform
pub mod Wire
pub mod Payloads
pub mod Grant
pub mod History
pub mod Pin
pub mod Admission
pub mod Succession
pub mod Checks
pub mod Removal
pub mod KeyBundle
pub mod Recovery
pub mod Screens
mod Tests
