-- ===== src/Storage/RedisBudget.antt =====
-- internal/adapter/storage/redis_budget.go: the scripts of RedisBudgetStore, on the three keys of one
-- session. A script is one step of the server. `down` is an error of the connection, by its text;
-- `decrease` is what the server does for the command decrbyfloat, which has an error where the server
-- does not know it; `truncate` is how the server makes an integer reply of a number of a script.
mod Laws
mod Tests
use sentoris_proxy.Prelude.{
  ℕ, Bool, true, false, not, Option, none, some, String, Result, ok, err, if◌then◌else◌,
}
use sentoris_proxy.Prelude.Int.{ℤ, pos, ◌+ℤ◌, ◌-ℤ◌, ltb_ℤ, leb_ℤ}

pub record Account : Type 0 where
  pub budget : Option ℤ
  pub reserved : Option ℤ
  pub used : Option ℤ

-- What go-redis gives for a reply.
pub data RedisReply : Type 0 where
  integer_reply : ℤ → RedisReply
  double_reply : ℤ → RedisReply
  text_reply : String → RedisReply

pub data RedisError : Type 0 where
  failed_to : (action cause : String) → RedisError

-- `tonumber(redis.call('get', key) or '0')`.
unfoldable pub number_at : Option ℤ → ℤ
number_at none = pos 0
number_at (some n) = n

unfoldable pub available : Account → ℤ
unfolding number_at
available a = number_at a.budget -ℤ number_at a.reserved

unfoldable pub reserve_script : ℤ → Account → Account × Bool
unfolding available number_at
reserve_script amount a =
    if leb_ℤ amount (available a)
    then (record a { reserved = some (number_at a.reserved +ℤ amount) }, true)
    else (a, false)

unfoldable pub reserve : Option String → ℤ → Account → Account × Result RedisError Bool
unfolding reserve_script
reserve (some cause) amount a = (a, err (failed_to "reserve budget" cause))
reserve none amount a = let done = reserve_script amount a in (done.0, ok done.1)

-- The two writes of the script, of which the first may end it.
unfoldable pub spend : Account → ℤ → Result String ℤ → Account × Option RedisError
unfolding number_at
spend a amount (err cause) = (a, some (failed_to "commit budget" cause))
spend a amount (ok reserved) =
    (record a { reserved = some reserved; used = some (number_at a.used +ℤ amount) }, none)

module _ (decrease : ℤ → ℤ → Result String ℤ) where
  unfoldable pub commit_script : ℤ → Account → Account × Option RedisError
  unfolding spend number_at
  commit_script amount a =
      let to_rollback = number_at a.reserved -ℤ amount in
      if ltb_ℤ (pos 0) to_rollback
      then spend a amount (decrease (number_at a.reserved) to_rollback)
      else (record a { used = some (number_at a.used +ℤ amount) }, none)

  unfoldable pub commit : Option String → ℤ → Account → Account × Option RedisError
  unfolding commit_script
  commit (some cause) amount a = (a, some (failed_to "commit budget" cause))
  commit none amount a = commit_script amount a

unfoldable pub rollback : Option String → ℤ → Account → Account × Option RedisError
unfolding number_at
rollback (some cause) amount a = (a, some (failed_to "rollback budget" cause))
rollback none amount a =
    let new_reserved = number_at a.reserved -ℤ amount in
    (
      record a { reserved = some (if ltb_ℤ new_reserved (pos 0) then pos 0 else new_reserved) },
      none,
    )

-- The type assertions on the reply; `parse` is ParseFloat.
unfoldable pub remaining_of : (String → Option ℤ) → RedisReply → ℤ
unfolding number_at
remaining_of parse (integer_reply n) = pos 0
remaining_of parse (double_reply n) = n
remaining_of parse (text_reply s) = number_at (parse s)

unfoldable pub remaining_script : (truncate : ℤ → ℤ) → Account → RedisReply
unfolding available number_at
remaining_script truncate a = integer_reply (truncate (available a -ℤ number_at a.used))

unfoldable pub get_remaining :
    (truncate : ℤ → ℤ) → (String → Option ℤ) → Option String → Account → Result RedisError ℤ
unfolding remaining_of remaining_script
get_remaining truncate parse (some cause) a = err (failed_to "get remaining budget" cause)
get_remaining truncate parse none a = ok (remaining_of parse (remaining_script truncate a))

unfoldable pub set_budget : Option String → ℤ → Account → Account × Option RedisError
set_budget (some cause) amount a = (a, some (failed_to "set budget" cause))
set_budget none amount a = (record { budget = some amount; reserved = none; used = none }, none)
