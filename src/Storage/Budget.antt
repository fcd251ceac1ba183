-- ===== src/Storage/Budget.antt =====
-- `MemoryBudgetStore` of internal/adapter/storage/storage.go. An amount is a `float64`: an integer of a
-- unit of which each of the amounts is a whole number, as 2^-1074 dollars is for all finite ones; an
-- infinity or a NaN is no amount here. `rd` is the rounding of an exact sum or difference to the nearest
-- float64, which the processor does. The lock makes each method one step, and no method returns an
-- error. The session that a call names is not looked at.
pub mod Laws
mod Rounding
mod Solvent
mod Tests
use sentoris_proxy.Prelude.{ℕ, ◌*◌, Bool, true, false, String, if◌then◌else◌}
use sentoris_proxy.Prelude.Int.{ℤ, pos, ◌+ℤ◌, ◌-ℤ◌, ltb_ℤ}

pub record MemoryBudgetStore : Type 0 where
  pub budget : ℤ
  pub reserved : ℤ
  pub used : ℤ

pub record Budget : Type 0 where
  pub total_budget : ℤ
  pub used_budget : ℤ

-- A hundred dollars, where `unit` is what one dollar counts.
pub new_memory_budget_store : (unit : ℕ) → MemoryBudgetStore
new_memory_budget_store unit = record { budget = pos (100 * unit); reserved = pos 0; used = pos 0 }

-- No rounding: the sums that are float64 themselves.
abbrev pub exact : ℤ → ℤ
exact a = a

module _ (rd : ℤ → ℤ) where
  unfoldable pub get_remaining : MemoryBudgetStore → String → ℤ
  get_remaining s session_id = rd (rd (s.budget -ℤ s.reserved) -ℤ s.used)

  unfoldable pub reserve : MemoryBudgetStore → String → ℤ → MemoryBudgetStore × Bool
  reserve s session_id amount =
      if ltb_ℤ (rd (rd (s.budget -ℤ s.reserved) -ℤ s.used)) amount
      then (s, false)
      else (record s { reserved = rd (s.reserved +ℤ amount) }, true)

  unfoldable pub commit : MemoryBudgetStore → String → ℤ → MemoryBudgetStore
  commit s session_id amount = record s {
    used = rd (s.used +ℤ amount);
    reserved = rd (s.reserved -ℤ amount);
  }

  unfoldable pub rollback : MemoryBudgetStore → String → ℤ → MemoryBudgetStore
  rollback s session_id amount = record s { reserved = rd (s.reserved -ℤ amount) }

pub get : MemoryBudgetStore → Budget
get s = record { total_budget = s.budget; used_budget = s.used }

pub set : MemoryBudgetStore → ℤ → MemoryBudgetStore
set s amount = record s { budget = amount }

unfoldable pub set_budget : MemoryBudgetStore → String → ℤ → MemoryBudgetStore
set_budget s session_id amount = record s { budget = amount }
