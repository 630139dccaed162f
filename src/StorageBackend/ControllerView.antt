-- ===== src/StorageBackend/ControllerView.antt =====
-- The backend, the message sender and the cache controller together.
use serverless_lmcache.Common.{
  ℕ, ◌+◌, ◌≡◌, refl, ap, ◌∙◌, List-cases, inl, inr, Bool, true, false, ite, some, List, [], ◌∷◌,
  arith,
}
use serverless_lmcache.Controller.Worker.{
  OpType, BatchedKvOperationMsg, WorkerNode, handle_batched_kv_operations, has_kv, is_in_sync,
}
use serverless_lmcache.Controller.Worker.Replay.{replay, handle_batched_kv_operations-replay}
use serverless_lmcache.StorageBackend.Policy.{BaseCachePolicy, PolicyLaws, ObjectAllocator}
use serverless_lmcache.StorageBackend.MessageSender.{BatchedMessageSender, numbered, drain_and_send}
use serverless_lmcache.StorageBackend.LocalCpu.{Config, Backend}
use serverless_lmcache.StorageBackend.LocalCpu.History.{Reachable}
use serverless_lmcache.StorageBackend.LocalCpu.Messages.{is_cached, replayed}
use serverless_lmcache.StorageBackend.LocalCpu.Told.{history-Mirrors}

module _ {K C : Type 0} (dec : Discrete K) (dec_c : Discrete C) (key_hash : K → C) where
  -- The operations on chunk hashes, which the sender is given.
  abbrev pub hashed : List (OpType × K) → List (OpType × C)
  hashed [] = []
  hashed ((op, k) ∷ ops) = (op, key_hash k) ∷ hashed ops

  same_test :
      ((x y : K) → key_hash x ≡ key_hash y → x ≡ y)
      → (j k : K) (x b : Bool) → ite (dec_c (key_hash j) (key_hash k)) x b ≡ ite (dec j k) x b
  same_test injective j k x b = elim (dec j k) [
    | yes same ↦ ground (arith, ap key_hash same)
    | no ne ↦ ground (arith, ne, λ (e : key_hash j ≡ key_hash k). ne (injective j k e))
  ]

  replay-numbered :
      ((x y : K) → key_hash x ≡ key_hash y → x ≡ y)
      → (k : K) (seq : ℕ) (ops : List (OpType × K)) (b : Bool)
      → replay dec_c (key_hash k) (numbered seq (hashed ops)) b ≡ replayed dec k ops b
  unfolding numbered
  replay-numbered injective k seq [] b = refl
  replay-numbered injective k seq ((op, j) ∷ ops) b =
      ap (replay dec_c (key_hash k) (numbered (seq + 1) (hashed ops))) (same_test injective j k _ b)
      ∙ replay-numbered injective k (seq + 1) ops _

module _ {N C : Type 0} where
  drain_and_send-some :
      (b : BatchedMessageSender N C) {msg : BatchedKvOperationMsg N C}
      {b' : BatchedMessageSender N C}
      → drain_and_send b ≡ (some msg, b')
      → (msg.location ≡ b.location) × (msg.operations ≡ numbered b.sequence_number b.message_queue)
  unfolding drain_and_send
  drain_and_send-some b e = elim (List-cases b.message_queue) [
    | inl empty ↦ absurd (ground (arith, empty, e))
    | inr (op, ops, queue) ↦ (ground (arith, queue, e), ground (arith, queue, e))
  ]

module _ {K C N : Type 0} (dec : Discrete K) (dec_c : Discrete C) (dec_n : Discrete N)
    (key_hash : K → C) where
  -- Take a backend with a message sender, whose queue has been drained, and a worker node of the
  -- controller that has at the sender's location the chunk hash of a key exactly if the key is
  -- cached, and does not sync. After any sequence of lookups, puts, gets, pins, unpins, removals,
  -- touches, `clear` and `allocate` calls on the backend and of changes of the references to its
  -- objects, the sender's next message, with the operations of these calls, brings the node to
  -- have that chunk hash at that location exactly if the key is cached then. Different keys have
  -- different chunk hashes, and the eviction policy has the laws of a policy. Calls that raise,
  -- allocations that sleep, `batched_allocate` and `close` are left out.
  pub has_kv-drain_and_send :
      (cfg : Config) (p : BaseCachePolicy K ℕ) (a : ObjectAllocator) (pl : PolicyLaws dec p)
      {h0 h : ℕ → ℕ} {s0 s : Backend dec cfg p a} (b : BatchedMessageSender N C)
      {msg : BatchedKvOperationMsg N C} {b' : BatchedMessageSender N C} (w : WorkerNode N C) (k : K)
      → ((x y : K) → key_hash x ≡ key_hash y → x ≡ y)
      → cfg.has_sender ≡ true
      → s0.kv_ops ≡ []
      → has_kv dec_n dec_c b.location (key_hash k) w ≡ is_cached dec k s0.hot_cache
      → is_in_sync w.sync_info ≡ false
      → Reachable dec cfg p a (h0, s0) (h, s)
      → b.message_queue ≡ hashed dec dec_c key_hash s.kv_ops
      → drain_and_send b ≡ (some msg, b')
      → has_kv dec_n dec_c b.location
          (key_hash k)
          (handle_batched_kv_operations dec_n dec_c false msg w).0
        ≡ is_cached dec k s.hot_cache
  has_kv-drain_and_send cfg p a pl {h0} {h} {s0} {s} b {msg} w k injective sender drained before
        not_syncing reached queue sent =
      let (location, operations) = drain_and_send-some b sent in
      let m0 : (j : K)
          → replayed dec j s0.kv_ops (is_cached dec j s0.hot_cache) ≡ is_cached dec j s0.hot_cache =
        λ j. ap (λ ops. replayed dec j ops (is_cached dec j s0.hot_cache)) drained in
      let told = history-Mirrors dec cfg p a sender s0.hot_cache pl (h0, s0) m0 reached k in
      let ops : replay dec_c (key_hash k) msg.operations
            (has_kv dec_n dec_c b.location (key_hash k) w)
          ≡ is_cached dec k s.hot_cache =
        ap (λ ops. replay dec_c (key_hash k) ops (has_kv dec_n dec_c b.location (key_hash k) w))
          (operations ∙ ap (numbered b.sequence_number) queue)
        ∙ replay-numbered dec dec_c key_hash injective k b.sequence_number s.kv_ops _
        ∙ ap (replayed dec k s.kv_ops) before
        ∙ told in
      let handled =
        (handle_batched_kv_operations-replay dec_n dec_c false msg w b.location (key_hash k)).1 in
      handled ∙ ground (arith, not_syncing, location, ops)
