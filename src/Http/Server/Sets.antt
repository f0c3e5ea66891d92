-- ===== src/Http/Server/Sets.antt =====
-- The sets of httpd/connection_manager.cpp, and the handler that is registered for events.
use bnc.Prelude.{ℕ, suc, ◌+◌, ◌≤◌, ◌<◌, ◌==◌, ◌≡◌, if◌then◌else◌, refl, arith, Bool-cases, inl, inr}
use bnc.Http.Manager
use bnc.Http.Manager.{Manager, new_manager}
use bnc.Http.Server.Counting.{
  occurs, Ascending, occurs-erase, occurs-insert_other, insert-Ascending, erase-Ascending,
  occurs-Ascending,
}

-- The sets are in order and have no member in common, nor one that was not made yet; the handler is
-- registered once if it is marked as registered, else not at all.
pub record Sets (m : Manager) (fresh slots : ℕ) : Type 0 where
  pub connections_ascend : Ascending m.connections
  pub sse_objects_ascend : Ascending m.sse_objects
  pub apart : (i : ℕ) → occurs i m.connections + occurs i m.sse_objects ≤ 1
  pub unborn : (i : ℕ) → fresh ≤ i → occurs i m.connections + occurs i m.sse_objects ≡ 0
  pub one_slot : slots ≡ (if m.sse_connected then 1 else 0)

pub new_manager-Sets : Sets new_manager 0 0
new_manager-Sets = record {
  connections_ascend = tt;
  sse_objects_ascend = tt;
  apart = λ i. omega arith;
  unborn = λ i h. refl;
  one_slot = refl;
}

module _ (m : Manager) (fresh slots : ℕ) (v : Sets m fresh slots) where
  pub start-Sets : Sets (Manager.start fresh m) (suc fresh) slots
  unfolding Manager.start
  start-Sets = record {
    connections_ascend = insert-Ascending fresh m.connections v.connections_ascend;
    sse_objects_ascend = v.sse_objects_ascend;
    apart = λ i. elim (Bool-cases (i == fresh)) [
      | inl e ↦ ground (
        arith,
        v.unborn i,
        occurs-Ascending i (Manager.insert fresh m.connections)
            (insert-Ascending fresh m.connections v.connections_ascend),
      )
      | inr e ↦ ground (arith, v.apart i, occurs-insert_other i fresh m.connections e)
    ];
    unborn =
        λ i h. ground (arith, v.unborn i, occurs-insert_other i fresh m.connections (ground arith));
    one_slot = v.one_slot;
  }

  pub stop-Sets : (c : ℕ) → Sets (Manager.stop c m) fresh slots
  unfolding Manager.stop
  stop-Sets c = record {
    connections_ascend = erase-Ascending c m.connections v.connections_ascend;
    sse_objects_ascend = v.sse_objects_ascend;
    apart = λ i. ground (arith, v.apart i, occurs-erase i c m.connections);
    unborn = λ i h. ground (arith, v.unborn i, occurs-erase i c m.connections);
    one_slot = v.one_slot;
  }

  pub sse_stop-Sets : (c : ℕ) → Sets (Manager.sse_stop c m) fresh slots
  unfolding Manager.sse_stop
  sse_stop-Sets c = record {
    connections_ascend = v.connections_ascend;
    sse_objects_ascend = erase-Ascending c m.sse_objects v.sse_objects_ascend;
    apart = λ i. ground (arith, v.apart i, occurs-erase i c m.sse_objects);
    unborn = λ i h. ground (arith, v.unborn i, occurs-erase i c m.sse_objects);
    one_slot = v.one_slot;
  }

  pub stop_all-Sets : Sets (Manager.stop_all m) fresh slots
  unfolding Manager.stop_all
  stop_all-Sets = record {
    connections_ascend = tt;
    sse_objects_ascend = v.sse_objects_ascend;
    apart = λ i. omega (arith, v.apart i);
    unborn = λ i h. omega (arith, v.unborn i h);
    one_slot = v.one_slot;
  }

  pub sse_start-Sets :
      (c : ℕ)
      → c < fresh
      → Sets (Manager.sse_start c m) fresh (if m.sse_connected then slots else suc slots)
  unfolding Manager.sse_start
  sse_start-Sets c l = record {
    connections_ascend = erase-Ascending c m.connections v.connections_ascend;
    sse_objects_ascend = insert-Ascending c m.sse_objects v.sse_objects_ascend;
    apart = λ i. elim (Bool-cases (i == c)) [
      | inl e ↦ ground (
        arith,
        occurs-erase i c m.connections,
        occurs-Ascending i (Manager.insert c m.sse_objects)
            (insert-Ascending c m.sse_objects v.sse_objects_ascend),
      )
      | inr e ↦ ground (
        arith,
        v.apart i,
        occurs-erase i c m.connections,
        occurs-insert_other i c m.sse_objects e,
      )
    ];
    unborn = λ i h. ground (
      arith,
      v.unborn i,
      occurs-erase i c m.connections,
      occurs-insert_other i c m.sse_objects (ground arith),
    );
    one_slot = ground (arith, v.one_slot);
  }
