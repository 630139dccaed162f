-- ===== src/Memory/Layout.antt =====
-- The layout of a memory object: `MemoryFormat` of lmcache/v1/memory_management.py, and the bytes of
-- shapes (`get_size_bytes` of lmcache/integration/vllm/utils.py). A `torch.Size` is a list of numbers;
-- a dtype is any type with an item size.
use serverless_lmcache.Common.{
  ℕ, ◌+◌, ◌*◌, Bool, true, false, ◌&&◌, ◌==◌, if◌then◌else◌, Option, none, some, List, [], ◌∷◌,
  length,
}

pub data MemoryFormat : Type 0 where
  undefined kv_2ltd kv_t2d kv_2td binary binary_buffer kv_mla_fmt : MemoryFormat

unfoldable pub token_dim : MemoryFormat → ℕ
token_dim kv_2ltd = 2
token_dim kv_t2d = 1
token_dim kv_mla_fmt = 2
token_dim _ = 0

abbrev pub Size : Type 0
Size = List ℕ

unfoldable pub numel : Size → ℕ
numel [] = 1
numel (d ∷ ds) = d * numel ds

-- `==` of two sizes, and of two lists of them.
unfoldable pub eq_size : Size → Size → Bool
eq_size [] [] = true
eq_size [] (y ∷ ys) = false
eq_size (x ∷ xs) [] = false
eq_size (x ∷ xs) (y ∷ ys) = (x == y) && eq_size xs ys

unfoldable pub eq_shapes : List Size → List Size → Bool
eq_shapes [] [] = true
eq_shapes [] (y ∷ ys) = false
eq_shapes (x ∷ xs) [] = false
eq_shapes (x ∷ xs) (y ∷ ys) = eq_size x y && eq_shapes xs ys

module _ {D : Type 0} (itemsize : D → ℕ) where
  -- The sum over the shapes with their dtypes.
  unfoldable pub sum_bytes : List Size → List D → ℕ
  sum_bytes [] dtypes = 0
  sum_bytes (s ∷ shapes) [] = 0
  sum_bytes (s ∷ shapes) (d ∷ dtypes) = numel s * itemsize d + sum_bytes shapes dtypes

  -- `none` is the failed assertion.
  unfoldable pub get_size_bytes : List Size → List D → Option ℕ
  get_size_bytes shapes kv_dtypes =
      if length shapes == length kv_dtypes then some (sum_bytes shapes kv_dtypes) else none
