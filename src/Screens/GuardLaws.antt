-- ===== src/Screens/GuardLaws.antt =====
-- That one job runs at a time, and that the guard is free after it.
use undergroundbb.Base.{
  any, ℕ, suc, ◌≡◌, refl, sym, ap, ◌∙◌, subst, inl, inr, Bool, true, false, not, List, [], ◌∷◌,
  none, some, ◌==◌, arith, Bool-cases, Option-cases, every, and-eq_true, is_some,
}
use undergroundbb.Screens.Guard.{
  GuardState, is_held, notify, try_acquire, holds, release, subscribe, unsubscribe, GuardOp,
  acquiring, releasing, subscribing, unsubscribing, apply_op, apply_ops, Awaited, Outcome,
  await_then, finally_release, with_guard,
}

-- The operation does not call the release function of the token.
unfoldable pub leaves : ℕ → GuardOp → Bool
leaves token (releasing other) = not (other == token)
leaves token acquiring = true
leaves token (subscribing listener) = true
leaves token (unsubscribing listener) = true

-- The token holds the guard, and so many tokens were made.
pub record IsHeldBy (token made : ℕ) (s : GuardState) : Type 0 where
  pub holder : s.holder ≡ some token
  pub tokens : s.tokens ≡ made

pub acquire_held : (s : GuardState) → is_held s ≡ true → try_acquire s ≡ (none, s)
unfolding try_acquire
acquire_held s e = ground (arith, e)

pub release_other :
    (token : ℕ) (s : GuardState) → holds s.holder token ≡ false → release token s ≡ s
unfolding release
release_other token s e = ground (arith, e)

release_own :
    (token : ℕ) (s : GuardState) → s.holder ≡ some token → is_held (release token s) ≡ false
unfolding release is_held notify holds
release_own token s e = ground (arith, e)

subscribe-IsHeldBy :
    (token made listener : ℕ) (s : GuardState)
    → IsHeldBy token made s
    → IsHeldBy token made (subscribe listener s)
unfolding subscribe
subscribe-IsHeldBy token made listener s h =
    elim (Bool-cases (any (λ l. l == listener) s.listeners)) [
      | inl there ↦ rw there h
      | inr new ↦ rw new (record { holder = h.holder; tokens = h.tokens })
    ]

apply_op-IsHeldBy :
    (token made : ℕ) (s : GuardState) (op : GuardOp)
    → leaves token op ≡ true
    → IsHeldBy token made s
    → IsHeldBy token made (apply_op op s)
unfolding leaves apply_op unsubscribe is_held holds
apply_op-IsHeldBy token made s acquiring l h =
    subst (IsHeldBy token made) (ap (λ r. r.1) (sym (acquire_held s (ap is_some h.holder)))) h
apply_op-IsHeldBy token made s (releasing other) l h =
    subst (IsHeldBy token made)
      (sym (release_other other s (ap (λ o. holds o other) h.holder ∙ ground (arith, l)))) h
apply_op-IsHeldBy token made s (subscribing listener) l h =
    subscribe-IsHeldBy token made listener s h
apply_op-IsHeldBy token made s (unsubscribing listener) l h = record {
  holder = h.holder;
  tokens = h.tokens;
}

-- While a token holds the guard, whatever others do short of calling its release function, it keeps
-- holding it, and nobody acquires the guard: no new token is made.
pub apply_ops-IsHeldBy :
    (token made : ℕ) (s : GuardState) (ops : List GuardOp)
    → every (leaves token) ops ≡ true
    → IsHeldBy token made s
    → IsHeldBy token made (apply_ops ops s)
unfolding apply_ops every
apply_ops-IsHeldBy token made s [] l h = h
apply_ops-IsHeldBy token made s (op ∷ ops) l h =
    let (here, rest) = and-eq_true (leaves token op) _ l in
    apply_ops-IsHeldBy token made (apply_op op s) ops rest
      (apply_op-IsHeldBy token made s op here h)

-- The job's own token is the one that its hold made.
try_acquire_free :
    (s : GuardState)
    → is_held s ≡ false
    → ((try_acquire s).0 ≡ some s.tokens) × IsHeldBy s.tokens (suc s.tokens) (try_acquire s).1
unfolding try_acquire notify
try_acquire_free s e = rw e (refl, record { holder = refl; tokens = refl })

with_guard_takes :
    {A : Type 0} (body : GuardState → Outcome A) (s : GuardState) (token : ℕ)
    → (try_acquire s).0 ≡ some token
    → with_guard body s ≡ finally_release token (body (try_acquire s).1)
unfolding with_guard
with_guard_takes body s token e = ground (arith, e)

pub with_guard_frees :
    {A : Type 0} (body : GuardState → Outcome A) (s : GuardState)
    → is_held s ≡ false
    → ((t : GuardState)
        → IsHeldBy s.tokens (suc s.tokens) t
        → IsHeldBy s.tokens (suc s.tokens) (body t).1)
    → is_held (with_guard body s).1 ≡ false
unfolding finally_release
with_guard_frees body s free keeps =
    let (token, held) = try_acquire_free s free in
    ap (λ r. is_held r.1) (with_guard_takes body s s.tokens token)
    ∙ release_own s.tokens (body (try_acquire s).1).1 (keeps (try_acquire s).1 held).holder

pub await_then-IsHeldBy :
    {A B : Type 0} (token made : ℕ) (call : Awaited A) (rest : A → GuardState → Outcome B)
    (s : GuardState)
    → every (leaves token) call.meanwhile ≡ true
    → ((a : A) (t : GuardState) → IsHeldBy token made t → IsHeldBy token made (rest a t).1)
    → IsHeldBy token made s
    → IsHeldBy token made (await_then call rest s).1
unfolding await_then
await_then-IsHeldBy token made call rest s l keeps h =
    let after = apply_ops-IsHeldBy token made s call.meanwhile l h in
    elim (Option-cases call.result) [
      | inl throws ↦ rw throws after
      | inr (a, returns) ↦ rw returns (keeps a (apply_ops call.meanwhile s) after)
    ]
