-- ===== src/Storage/RedisBudget/Tests.antt =====
-- An account of ten, with three of it reserved, and a server that does not know decrbyfloat.
use sentoris_proxy.Prelude.{◌≡◌, refl, none, some, String, Result, err}
use sentoris_proxy.Prelude.Int.{ℤ, pos, ◌+ℤ◌, ◌-ℤ◌}
use sentoris_proxy.Storage.RedisBudget.{Account, failed_to, reserve, commit, rollback}

abbrev account : Account
account = record { budget = some (pos 10); reserved = some (pos 3); used = none }

abbrev unknown_command : ℤ → ℤ → Result String ℤ
unknown_command held amount = err "unknown command"

-- Less is used than was reserved: the script ends at the first write.
nothing_spent :
    commit unknown_command none (pos 2) account
    ≡ (account, some (failed_to "commit budget" "unknown command"))
unfolding commit ◌-ℤ◌
nothing_spent = refl

rolled_back_to_zero : (rollback none (pos 5) account).0.reserved ≡ some (pos 0)
unfolding rollback ◌-ℤ◌
rolled_back_to_zero = refl

reserved_seven : (reserve none (pos 4) account).0.reserved ≡ some (pos 7)
unfolding reserve ◌+ℤ◌ ◌-ℤ◌
reserved_seven = refl
