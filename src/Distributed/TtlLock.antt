-- ===== src/Distributed/TtlLock.antt =====
-- `TTLLock` of csrc/storage_manager/ttl_lock.cpp: a counter with an expiration time. The clock
-- (`now_ms`) is an argument. `lock` and `unlock` are the rounds of the compare-and-swap loops that
-- no other thread disturbs, as for L1Manager, which makes every call under its own lock.
use serverless_lmcache.Common.{
  ℕ, zero, suc, ◌+◌, ◌-◌, ◌*◌, ◌≤◌, ◌<◌, ◌≡◌, Bool, ◌&&◌, arith, ltb, leb, ◌==◌, if◌then◌else◌,
  iterate,
}

pub record TtlLock : Type 0 where
  pub counter : ℕ
  pub expiration_ms : ℕ
  pub ttl_ms : ℕ

-- The constructor.
unfoldable pub new : ℕ → TtlLock
new ttl_sec = record { counter = 0; expiration_ms = 0; ttl_ms = ttl_sec * 1000 }

unfoldable pub lock : ℕ → TtlLock → TtlLock
lock now l =
    if leb l.expiration_ms now
    then record l { counter = 1; expiration_ms = now + l.ttl_ms }
    else record l { counter = l.counter + 1; expiration_ms = now + l.ttl_ms }

unfoldable pub unlock : TtlLock → TtlLock
unlock l = if l.counter == 0 then l else record l { counter = l.counter - 1 }

unfoldable pub is_locked : ℕ → TtlLock → Bool
is_locked now l = ltb 0 l.counter && ltb now l.expiration_ms

unfoldable pub reset : TtlLock → TtlLock
reset l = record l { counter = 0; expiration_ms = 0 }

-- The holders that the lock counts at a time: none once the time to live is over.
unfoldable pub holders : ℕ → TtlLock → ℕ
holders now l = if ltb now l.expiration_ms then l.counter else 0

pub holders-new : (now ttl : ℕ) → holders now (new ttl) ≡ 0
unfolding holders new
holders-new now ttl = ground arith

-- A lock is held exactly while it has a holder.
pub is_locked-holders : (now : ℕ) (l : TtlLock) → is_locked now l ≡ ltb 0 (holders now l)
unfolding is_locked holders
is_locked-holders now l = ground arith

-- `lock` adds one holder to those that have not timed out, and `unlock` takes one away.
pub holders-lock :
    (now : ℕ) (l : TtlLock) → 0 < l.ttl_ms → holders now (lock now l) ≡ holders now l + 1
unfolding holders lock
holders-lock now l h = ground arith

pub holders-unlock : (now : ℕ) (l : TtlLock) → holders now (unlock l) ≡ holders now l - 1
unfolding holders unlock
holders-unlock now l = ground arith

-- What `lock` took stays held until its time to live is over, whatever else is locked meanwhile.
pub is_locked-lock :
    (now later : ℕ) (l : TtlLock) → is_locked later (lock now l) ≡ ltb later (now + l.ttl_ms)
unfolding is_locked lock
is_locked-lock now later l = ground arith

-- `n` holders more, or less.
pub holders-iterate-lock :
    (now n : ℕ) (l : TtlLock)
    → 0 < l.ttl_ms
    → holders now (iterate n (lock now) l) ≡ holders now l + n
unfolding lock
holders-iterate-lock now zero l h = omega arith
holders-iterate-lock now (suc n) l h =
    ground (arith, holders-lock now l h, holders-iterate-lock now n (lock now l))

pub holders-iterate-unlock :
    (now n : ℕ) (l : TtlLock) → holders now (iterate n unlock l) ≡ holders now l - n
holders-iterate-unlock now zero l = omega arith
holders-iterate-unlock now (suc n) l =
    omega (arith, holders-unlock now l, holders-iterate-unlock now n (unlock l))

-- A lock that was just taken has the same holders until its time to live is over.
pub expiration-iterate-lock :
    (now n : ℕ) (l : TtlLock) → (iterate n (lock now) (lock now l)).expiration_ms ≡ now + l.ttl_ms
unfolding lock
expiration-iterate-lock now zero l = ground arith
expiration-iterate-lock now (suc n) l = ground (arith, expiration-iterate-lock now n (lock now l))

pub holders_later :
    (now later n : ℕ) (l : TtlLock)
    → 0 < n
    → now ≤ later
    → later < now + l.ttl_ms
    → holders later (iterate n (lock now) l) ≡ holders now l + n
unfolding holders
holders_later now later zero l h p q = elim h [ ]
holders_later now later (suc n) l h p q =
    ground (arith, expiration-iterate-lock now n l, holders-iterate-lock now (suc n) l)
