-- ===== src/Atomic.antt =====
-- src/atomic_ops.c: read-modify-write operations under stripe locks, as threads that interleave.
-- A value is a number below two to its width. A step of a thread is one access to memory; a
-- schedule is the list of the threads that take the steps.
pub mod Exclusion
pub mod Replay
pub mod Results
pub mod Tests
use libsolcompat.Common.{
  ℕ, ◌+◌, ◌-◌, ◌*◌, ◌/◌, ◌%◌, ◌^◌, Bool, true, false, Option, none, some, List, [], ◌∷◌, ◌++◌, ◌==◌,
  if◌then◌else◌,
}

-- What an operation returns, and what it stores in `*expected`, none where it stores nothing there.
abbrev pub Answer : Type 0
Answer = ℕ × Option ℕ

abbrev pub plain : ℕ → Answer
plain result = (result, none)

-- A read-modify-write: whether it writes, what, and what it returns, each from the old value.
pub record Operation : Type 0 where
  pub writes : ℕ → Bool
  pub new_value : ℕ → ℕ
  pub result : ℕ → Answer

-- `cas32`, `cas64`, `caslong` and `casptr`.
abbrev pub compare_and_swap : ℕ → ℕ → Operation
compare_and_swap cmp newval = record {
  writes = λ old. old == cmp;
  new_value = λ old. newval;
  result = λ old. plain old;
}

-- `SST_COMPARE_EXCHANGE`, with the results 1 and 0; where it returns 0, it stores the old value in
-- `*expected`, which is the caller's, after the unlock.
abbrev pub compare_exchange : ℕ → ℕ → Operation
compare_exchange expected desired = record {
  writes = λ old. old == expected;
  new_value = λ old. desired;
  result = λ old. if old == expected then plain 1 else (0, some old);
}

-- `SST_ATOMIC_ADD_NV`, with `delta` in two's complement.
abbrev pub atomic_add_nv : ℕ → ℕ → Operation
atomic_add_nv width delta = record {
  writes = λ old. true;
  new_value = λ old. (old + delta) % 2 ^ width;
  result = λ old. plain ((old + delta) % 2 ^ width);
}

-- `SST_FETCH_OP`; `expr old val` is the macro's argument.
abbrev pub fetch_op : ℕ → (ℕ → ℕ → ℕ) → ℕ → Operation
fetch_op width expr val = record {
  writes = λ old. true;
  new_value = λ old. expr old val % 2 ^ width;
  result = λ old. plain old;
}

-- `SST_SYNC_OP_AND_FETCH`, on words.
abbrev pub op_and_fetch : (ℕ → ℕ → ℕ) → ℕ → Operation
op_and_fetch expr val = record {
  writes = λ old. true;
  new_value = λ old. expr old val % 2 ^ 32;
  result = λ old. plain (expr old val % 2 ^ 32);
}

-- `SST_EXCHANGE`
abbrev pub exchange : ℕ → Operation
exchange val = record { writes = λ old. true; new_value = λ old. val; result = λ old. plain old }

-- `__atomic_load_8`
abbrev pub load_locked : Operation
load_locked = record { writes = λ old. false; new_value = λ old. old; result = λ old. plain old }

-- `__atomic_store_8`
abbrev pub store_locked : ℕ → Operation
store_locked val = record { writes = λ old. true; new_value = λ old. val; result = λ old. plain 0 }

-- `SST_ATOMIC_ADD`, which returns nothing, here 0.
abbrev pub atomic_add : ℕ → ℕ → Operation
atomic_add width delta = record {
  writes = λ old. true;
  new_value = λ old. (old + delta) % 2 ^ width;
  result = λ old. plain 0;
}

-- `atomic_add_int`
abbrev pub atomic_add_int : ℕ → Operation
atomic_add_int delta = atomic_add 32 delta

-- `atomic_swap_uint` and `atomic_swap_ptr`
abbrev pub atomic_swap : ℕ → Operation
atomic_swap newval = record {
  writes = λ old. true;
  new_value = λ old. newval;
  result = λ old. plain old;
}

-- `atomic_or_uint`; `bit_or` is the operator of C on words.
abbrev pub atomic_or_uint : (ℕ → ℕ → ℕ) → ℕ → Operation
atomic_or_uint bit_or bits = record {
  writes = λ old. true;
  new_value = λ old. bit_or old bits;
  result = λ old. plain old;
}

-- `atomic_cas_uint` and `atomic_cas_ptr`
abbrev pub atomic_cas : ℕ → ℕ → Operation
atomic_cas cmp newval = compare_and_swap cmp newval

abbrev pub sync_val_compare_and_swap : ℕ → ℕ → Operation
sync_val_compare_and_swap oldval newval = compare_and_swap oldval newval

-- Whether the old value that `cas32` returns is `oldval`, as 1 and 0.
abbrev pub sync_bool_compare_and_swap : ℕ → ℕ → Operation
sync_bool_compare_and_swap oldval newval = record (compare_and_swap oldval newval) {
  result = λ old. plain (if old == oldval then 1 else 0);
}

-- `SST_SYNC_FETCH_OP`, on words.
abbrev pub sync_fetch_op : (ℕ → ℕ → ℕ) → ℕ → Operation
sync_fetch_op expr val = fetch_op 32 expr val

abbrev pub sync_lock_test_and_set : ℕ → Operation
sync_lock_test_and_set val = record {
  writes = λ old. true;
  new_value = λ old. val;
  result = λ old. plain old;
}

abbrev pub sync_lock_release : Operation
sync_lock_release = record { writes = λ old. true; new_value = λ old. 0; result = λ old. plain 0 }

-- Where a thread stands in its operation.
pub data Phase : Type 0 where
  waiting holding : Phase
  has_read has_written : ℕ → Phase
  returned : Answer → Phase

pub record System : Type 0 where
  pub memory : ℕ → ℕ
  -- The byte of each stripe lock is not 0.
  pub locked : ℕ → Bool
  pub phase : ℕ → Phase

abbrev pub update {ℓ} : {A : Type ℓ} → (ℕ → A) → ℕ → A → ℕ → A
update f i x j = if j == i then x else f j

-- `sst_stripe_for`: the index of an address's stripe.
pub stripe_for : ℕ → ℕ
stripe_for p = p / 2 ^ 4 % 2 ^ 4

module _ (target : ℕ → ℕ) (operation : ℕ → Operation) where
  -- A step of thread `i`, which works on `target i`.
  pub advance_from : System → ℕ → Phase → System
  advance_from s i waiting = if s.locked (stripe_for (target i)) then s else record s {
    locked = update s.locked (stripe_for (target i)) true;
    phase = update s.phase i holding;
  }
  advance_from s i holding = record s { phase = update s.phase i (has_read (s.memory (target i))) }
  advance_from s i (has_read old) = record s {
    memory =
        if (operation i).writes old
        then update s.memory (target i) ((operation i).new_value old)
        else s.memory;
    phase = update s.phase i (has_written old);
  }
  advance_from s i (has_written old) = record s {
    locked = update s.locked (stripe_for (target i)) false;
    phase = update s.phase i (returned ((operation i).result old));
  }
  advance_from s i (returned r) = s

  pub advance : System → ℕ → System
  advance s i = advance_from s i (s.phase i)

  pub run : System → List ℕ → System
  run s [] = s
  run s (i ∷ schedule) = run (advance s i) schedule
