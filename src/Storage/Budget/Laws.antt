-- ===== src/Storage/Budget/Laws.antt =====
-- What reservations promise of the budget, in any order of calls by any sessions, when each sum and
-- each difference is rounded to a float64.
use native.Mathlib.Nat.{zero-mul, suc-mul}
use sentoris_proxy.Prelude.{
  ℕ, suc, ◌+◌, ◌*◌, ◌≡◌, refl, ap, ◌∙◌, inl, inr, Bool-cases, ◌↔◌, true, false, String, arith,
}
use sentoris_proxy.Prelude.Int.{
  ℤ, pos, ◌+ℤ◌, ◌-ℤ◌, ◌≤ℤ◌, ltb_ℤ, int_laws, ltb→lt_ℤ, not-ltb→le_ℤ, le→not-ltb_ℤ,
}
use sentoris_proxy.Storage.Budget.{
  MemoryBudgetStore, exact, get_remaining, reserve, commit, rollback,
}
use sentoris_proxy.Storage.Budget.Rounding.{Near, Rounds}
use sentoris_proxy.Storage.Budget.Solvent.{
  IsSolvent, get_remaining-Near, fits_budget, reserve-IsSolvent, commit-IsSolvent,
  rollback-IsSolvent,
}

-- One call of the store by a session that gives back or spends no more than is reserved.
pub data Step (rd : ℤ → ℤ) (s : MemoryBudgetStore) : MemoryBudgetStore → Type 0 where
  reserves :
      (session_id : String) (amount : ℤ)
      → pos 0 ≤ℤ amount
      → Step rd s (reserve rd s session_id amount).0
  commits :
      (session_id : String) (amount : ℤ)
      → pos 0 ≤ℤ amount
      → amount ≤ℤ s.reserved
      → Step rd s (commit rd s session_id amount)
  rolls_back :
      (session_id : String) (amount : ℤ)
      → pos 0 ≤ℤ amount
      → amount ≤ℤ s.reserved
      → Step rd s (rollback rd s session_id amount)

-- The stores that a number of calls leads to.
pub data Reach (rd : ℤ → ℤ) (s : MemoryBudgetStore) : (calls : ℕ) → MemoryBudgetStore → Type 0 where
  here : Reach rd s 0 s
  next :
      {calls : ℕ} {t u : MemoryBudgetStore}
      → Reach rd s calls t
      → Step rd t u
      → Reach rd s (suc calls) u

reserve-budget :
    (rd : ℤ → ℤ) (s : MemoryBudgetStore) (session_id : String) (amount : ℤ)
    → (reserve rd s session_id amount).0.budget ≡ s.budget
unfolding reserve
reserve-budget rd s session_id amount = ground arith

Step-budget : {rd : ℤ → ℤ} {s t : MemoryBudgetStore} → Step rd s t → t.budget ≡ s.budget
unfolding commit rollback
Step-budget {rd} {s} (reserves id a p) = reserve-budget rd s id a
Step-budget (commits id a p q) = refl
Step-budget (rolls_back id a p q) = refl

Reach-budget :
    {rd : ℤ → ℤ} {s t : MemoryBudgetStore} {calls : ℕ} → Reach rd s calls t → t.budget ≡ s.budget
Reach-budget here = refl
Reach-budget (next reached step) = Step-budget step ∙ Reach-budget reached

IsSolvent-at : {s : MemoryBudgetStore} {m n : ℕ} → IsSolvent m s → m ≡ n → IsSolvent n s
IsSolvent-at {s} h same = rw same at h

module _ (rd : ℤ → ℤ) (limit slack : ℕ) (r : Rounds rd limit slack) where
  Step-IsSolvent :
      {s t : MemoryBudgetStore} (excess : ℕ)
      → s.budget +ℤ pos (excess + 6 * slack) ≤ℤ pos limit
      → Step rd s t
      → IsSolvent excess s
      → IsSolvent (excess + 3 * slack) t
  Step-IsSolvent {s} excess room (reserves id a p) h =
      reserve-IsSolvent rd limit slack r s id a excess room p h
  Step-IsSolvent {s} excess room (commits id a p q) h =
      commit-IsSolvent rd limit slack r s id a excess room p q h
  Step-IsSolvent {s} excess room (rolls_back id a p q) h =
      rollback-IsSolvent rd limit slack r s id a excess room p q h

  -- From a store with no negative amount in which what is reserved and used fits the budget, every
  -- sequence of calls, by any sessions in any order, in which the amounts are not negative and no call
  -- commits or rolls back more than is reserved at that time, leads to a store with the same budget and
  -- no negative amount, in which what is reserved and used exceeds the budget by no more than three
  -- roundings, of `slack` each, for each call. The rounding is accurate up to `limit`, which leaves the
  -- budget room for the roundings of two calls more.
  pub Reach-IsSolvent :
      {s t : MemoryBudgetStore} {calls : ℕ}
      → s.budget +ℤ pos (3 * (calls * slack) + 6 * slack) ≤ℤ pos limit
      → IsSolvent 0 s
      → Reach rd s calls t
      → (t.budget ≡ s.budget) × IsSolvent (3 * (calls * slack)) t
  Reach-IsSolvent room h here = (refl, IsSolvent-at h (omega (arith, zero-mul slack)))
  Reach-IsSolvent room h (next {calls} {t} reached step) =
      let more = suc-mul calls slack in
      let (same, before) = Reach-IsSolvent (omega (int_laws, more)) h reached in
      let room_now : t.budget +ℤ pos (3 * (calls * slack) + 6 * slack) ≤ℤ pos limit =
        rw same (omega (int_laws, more)) in
      (
        Step-budget step ∙ same,
        IsSolvent-at (Step-IsSolvent (3 * (calls * slack)) room_now step before)
            (omega (arith, more)),
      )

  granted_iff :
      (s : MemoryBudgetStore) (session_id : String) (amount : ℤ)
      → ((reserve rd s session_id amount).1 ≡ true) ↔ (amount ≤ℤ get_remaining rd s session_id)
  unfolding reserve get_remaining
  granted_iff s session_id amount =
      let remaining = rd (rd (s.budget -ℤ s.reserved) -ℤ s.used) in
      elim (Bool-cases (ltb_ℤ remaining amount)) [
        | inl short ↦
            let below = ltb→lt_ℤ remaining amount short in
            rw short (λ e. absurd (cc e), λ h. absurd (omega (arith, below)))
        | inr enough ↦
            let fits = not-ltb→le_ℤ remaining amount enough in rw enough (λ _. fits, λ _. refl)
      ]

  -- The store after a grant, and the one after a refusal.
  reserve-granted :
      (s : MemoryBudgetStore) (session_id : String) (amount : ℤ)
      → amount ≤ℤ get_remaining rd s session_id
      → reserve rd s session_id amount ≡ (record s { reserved = rd (s.reserved +ℤ amount) }, true)
  unfolding reserve get_remaining
  reserve-granted s session_id amount h =
      rw (le→not-ltb_ℤ (rd (rd (s.budget -ℤ s.reserved) -ℤ s.used)) amount h) refl

  reserve-refused :
      (s : MemoryBudgetStore) (session_id : String) (amount : ℤ)
      → (reserve rd s session_id amount).1 ≡ false
      → (reserve rd s session_id amount).0 ≡ s
  unfolding reserve
  reserve-refused s session_id amount h = ground arith

  granted-Near :
      (s : MemoryBudgetStore) (session_id : String) (amount : ℤ) (excess : ℕ)
      → IsSolvent excess s
      → s.budget +ℤ pos (excess + 9 * slack) ≤ℤ pos limit
      → pos 0 ≤ℤ amount
      → amount ≤ℤ get_remaining rd s session_id
      → Near
          (5 * slack)
          (get_remaining rd (reserve rd s session_id amount).0 session_id)
          (get_remaining rd s session_id -ℤ amount)
  granted-Near s session_id amount excess h room p fits =
      let room_now : s.budget +ℤ pos (excess + 6 * slack) ≤ℤ pos limit = omega (int_laws, room) in
      let after = reserve-IsSolvent rd limit slack r s session_id amount excess room_now p h in
      let total = fits_budget rd limit slack r s session_id amount excess h room_now fits in
      let grown = r.near (s.reserved +ℤ amount) (omega (int_laws, total, h)) in
      let near = get_remaining-Near rd limit slack r s session_id excess h room_now in
      rw (reserve-granted s session_id amount fits) (
        let near_now =
          get_remaining-Near rd limit slack r (record s { reserved = rd (s.reserved +ℤ amount) })
            session_id (excess + 3 * slack) (rw (reserve-granted s session_id amount fits) at after)
            (omega (int_laws, room)) in
        omega (int_laws, grown, near, near_now))

  -- From a store with no negative amount, in which what is reserved and used exceeds the budget by no
  -- more than `excess`, and where the rounding is accurate up to that and nine roundings more, an
  -- amount that is not negative is granted exactly when it is at most what GetRemaining gives; then
  -- what remains falls by the amount, up to five roundings, and otherwise the store is unchanged.
  pub reserve_lem :
      (s : MemoryBudgetStore) (session_id : String) (amount : ℤ) (excess : ℕ)
      → IsSolvent excess s
      → s.budget +ℤ pos (excess + 9 * slack) ≤ℤ pos limit
      → pos 0 ≤ℤ amount
      → let (s', granted) = reserve rd s session_id amount in
        ((granted ≡ true) ↔ (amount ≤ℤ get_remaining rd s session_id))
        × (granted ≡ true
            → Near
                (5 * slack)
                (get_remaining rd s' session_id)
                (get_remaining rd s session_id -ℤ amount))
        × (granted ≡ false → s' ≡ s)
  reserve_lem s session_id amount excess h room p =
      let granted = granted_iff s session_id amount in
      (
        granted,
        λ e. granted-Near s session_id amount excess h room p (granted.0 e),
        reserve-refused s session_id amount,
      )

  -- From a store as for `reserve_lem`, an amount that is not negative and is at most what GetRemaining
  -- gives, when it is reserved and then rolled back, leaves what is reserved as it was up to
  -- two roundings, and nothing else changes; where the old reserved amount and the one with the amount
  -- added are float64 amounts themselves, the store is restored. When it is reserved and then committed,
  -- it is added to what is used, up to one rounding, and what is reserved is as it was up to two.
  pub reserve-settle :
      (s : MemoryBudgetStore) (session_id : String) (amount : ℤ) (excess : ℕ)
      → IsSolvent excess s
      → s.budget +ℤ pos (excess + 9 * slack) ≤ℤ pos limit
      → pos 0 ≤ℤ amount
      → amount ≤ℤ get_remaining rd s session_id
      → let s' = (reserve rd s session_id amount).0 in
        let back = rollback rd s' session_id amount in
        let spent = commit rd s' session_id amount in
        ((back.budget ≡ s.budget)
          × (back.used ≡ s.used)
          × Near (2 * slack) back.reserved s.reserved)
        × (rd s.reserved ≡ s.reserved → rd (s.reserved +ℤ amount) ≡ s.reserved +ℤ amount → back ≡ s)
        × ((spent.budget ≡ s.budget)
            × Near slack spent.used (s.used +ℤ amount)
            × Near (2 * slack) spent.reserved s.reserved)
  unfolding rollback commit
  reserve-settle s session_id amount excess h room p fits =
      let total =
        fits_budget rd limit slack r s session_id amount excess h (omega (int_laws, room)) fits in
      let grown = r.near (s.reserved +ℤ amount) (omega (int_laws, total, h)) in
      let shrunk =
        r.near (rd (s.reserved +ℤ amount) -ℤ amount) (omega (int_laws, total, grown, h)) in
      let paid = r.near (s.used +ℤ amount) (omega (int_laws, total, h)) in
      let reserved_near : Near (2 * slack) (rd (rd (s.reserved +ℤ amount) -ℤ amount)) s.reserved =
        omega (int_laws, grown, shrunk) in
      rw (reserve-granted s session_id amount fits) (
        (refl, refl, reserved_near),
        λ kept sum. ap (λ (a : ℤ). record s { reserved = a }) (rw sum (ap rd add_sub ∙ kept)),
        (refl, paid, reserved_near),
      )
    where
      add_sub : s.reserved +ℤ amount -ℤ amount ≡ s.reserved
      add_sub = omega int_laws

-- Without rounding, rolling back an amount that is not reserved raises what remains above the budget:
-- two rollbacks of one reservation leave a positive amount more to spend than there was before it.
pub rollback_twice :
    (s : MemoryBudgetStore) (session_id : String) (amount : ℤ)
    → amount ≤ℤ get_remaining exact s session_id
    → let s' = (reserve exact s session_id amount).0 in
      get_remaining exact
        (rollback exact (rollback exact s' session_id amount) session_id amount)
        session_id
      ≡ get_remaining exact s session_id +ℤ amount
unfolding reserve rollback get_remaining
rollback_twice s session_id amount h =
    rw (le→not-ltb_ℤ (s.budget -ℤ s.reserved -ℤ s.used) amount h) (omega int_laws)
