-- ===== src/Rpc/Vectors.antt =====
-- Vectors, the operators of rpc/marshall.h, are read back as they were written.
use simple_distributed_files.Prelude.{
  ◌%◌, ◌^◌, ◌<◌, ◌≡◌, refl, sym, subst, List, [], ◌∷◌, ◌++◌, append-nil, arith, Bytes, length, All,
}
use simple_distributed_files.Rpc.Marshall.{Marshall, put_uint, put_all, put_vector}
use simple_distributed_files.Rpc.Unmarshall.{Reader, u32, get_uint, get_all, get_vector}
use simple_distributed_files.Rpc.RoundTrip.{
  Reads, Writes, Reads-pure, Reads-bind, Reads-last, Writes-then, uint_bytes, put_uint-Writes,
  get_uint-Reads,
}

-- Lists, from the codec of an element.
module _ {A : Type 0} (put : A → Marshall → Marshall) (get : Reader A) (bytes : A → Bytes) where
  unfoldable pub all_bytes : List A → Bytes
  all_bytes [] = []
  all_bytes (x ∷ xs) = bytes x ++ all_bytes xs

  unfoldable pub vector_bytes : List A → Bytes
  vector_bytes xs = uint_bytes (length xs % 2 ^ 32) ++ all_bytes xs

  put_all-Writes :
      ((x : A) → Writes (put x) (bytes x)) → (xs : List A) → Writes (put_all put xs) (all_bytes xs)
  unfolding put_all all_bytes
  put_all-Writes h [] m = sym (append-nil m.content)
  put_all-Writes h (x ∷ xs) m =
      Writes-then (put x) (put_all put xs) (bytes x) (all_bytes xs) (h x) (put_all-Writes h xs) m

  pub put_vector-Writes :
      ((x : A) → Writes (put x) (bytes x))
      → (xs : List A) → Writes (put_vector put xs) (vector_bytes xs)
  unfolding put_vector vector_bytes
  put_vector-Writes h xs =
      Writes-then (put_uint (length xs % 2 ^ 32)) (put_all put xs) _ (all_bytes xs)
        (put_uint-Writes (length xs % 2 ^ 32)) (put_all-Writes h xs)

  get_all-Reads :
      (xs : List A)
      → All (λ x. Reads get (bytes x) x) xs
      → Reads (get_all get (length xs)) (all_bytes xs) xs
  unfolding get_all all_bytes
  get_all-Reads [] h = Reads-pure []
  get_all-Reads (x ∷ xs) h = Reads-bind get _ (bytes x) (all_bytes xs) x (x ∷ xs) h.0 (
      Reads-last (get_all get (length xs)) (◌∷◌ x) (all_bytes xs) xs (x ∷ xs) refl
        (get_all-Reads xs h.1))

  pub get_vector-Reads :
      (xs : List A)
      → length xs < u32
      → All (λ x. Reads get (bytes x) x) xs
      → Reads (get_vector get) (vector_bytes xs) xs
  unfolding get_vector vector_bytes
  get_vector-Reads xs short h =
      let e : length xs % 2 ^ 32 ≡ length xs = omega arith in
      Reads-bind get_uint (get_all get) (uint_bytes (length xs % 2 ^ 32)) (all_bytes xs)
        (length xs % 2 ^ 32) xs (get_uint-Reads (length xs % 2 ^ 32) (omega arith))
        (subst (λ n. Reads (get_all get n) (all_bytes xs) xs) (sym e) (get_all-Reads xs h))
