-- ===== src/StorageBackend/MessageSender.antt =====
-- `BatchedMessageSender` (lmcache/v1/storage_backend/batched_message_sender.py): the queue of key
-- operations and what a drain of it sends. The thread that drains it is left out.
use serverless_lmcache.Common.{ℕ, ◌+◌, Option, none, some, List, [], ◌∷◌, ◌++◌, length}
use serverless_lmcache.Controller.Worker.{OpType, KvOpEvent, BatchedKvOperationMsg}

pub record BatchedMessageSender (N C : Type 0) : Type 0 where
  pub instance_id : N
  pub worker_id : ℕ
  pub location : N
  pub message_queue : List (OpType × C)
  pub sequence_number : ℕ

-- The drain numbers the operations in their order, from `seq` on.
unfoldable pub numbered : {C : Type 0} → ℕ → List (OpType × C) → List (KvOpEvent C)
numbered seq [] = []
numbered seq ((op_type, key) ∷ ops) =
    record { op_type = op_type; key = key; seq_num = seq } ∷ numbered (seq + 1) ops

module _ {N C : Type 0} where
  unfoldable pub add_kv_op : OpType → C → BatchedMessageSender N C → BatchedMessageSender N C
  add_kv_op op_type key b = record b { message_queue = b.message_queue ++ ((op_type, key) ∷ []) }

  -- The message that is sent, if the queue is not empty.
  unfoldable pub drain_and_send :
      BatchedMessageSender N C → Option (BatchedKvOperationMsg N C) × BatchedMessageSender N C
  drain_and_send b = elim b.message_queue [
    | [] ↦ (none, b)
    | op ∷ ops ↦ (
      some (record {
        instance_id = b.instance_id;
        worker_id = b.worker_id;
        location = b.location;
        operations = numbered b.sequence_number (op ∷ ops);
      }),
      record b { message_queue = []; sequence_number = b.sequence_number + length (op ∷ ops) },
    )
  ]
