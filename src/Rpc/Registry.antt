-- ===== src/Rpc/Registry.antt =====
-- The methods of the server by name: include/rpc/server/registry.hpp, registry.cpp and synchronous_registry.hpp.
use muse_rpc.Common.{
  ℕ, ◌==◌, Bool, true, false, ◌&&◌, if◌then◌else◌, List, [], ◌∷◌, Option, some, none, Outcome, ok,
  thrown, undefined,
}
use muse_rpc.Memory.{ByteSequence}
use muse_rpc.Serializer.Shape.{Shape, Shapes, tuple, Value, Values}
use muse_rpc.Serializer.Writer.{wrote, refused, after, input}
use muse_rpc.Serializer.Reader.{got, failed, overrun, output}
use muse_rpc.Rpc.Header.{
  header_shape, header_value, header_of, write_header, success, parameter_error,
  method_execution_error,
}

-- What a method makes of the stream and the read position of the serializer: the stream of the answer.
abbrev pub Method : Type 0
Method = List ℕ → ℕ → Outcome (List ℕ)

module _ (host : ByteSequence) where
  -- `callBind` of a function that returns a value; `none` if it throws.
  unfoldable pub call_bind :
      (params : Shapes) (result : Shape) → (Values params → Option (Value result)) → Method
  unfolding write_header
  call_bind params result func stream position = elim (output host stream (tuple params) position) [
    | got tpl position' ↦ elim (func tpl) [
      | none ↦ write_header host (header_of false method_execution_error)
      | some r ↦
          elim (after (input host header_shape (header_value (header_of true success)) [])
            (λ stream'. input host result r stream')) [
              | wrote stream' ↦ ok stream'
              | refused why stream' ↦ write_header host (header_of true method_execution_error)
            ]
    ]
    | failed why position' ↦ write_header host (header_of false parameter_error)
    | overrun ↦ undefined
  ]

  -- `callBind` of a function without a result; `false` if it throws.
  unfoldable pub call_bind_void : (params : Shapes) → (Values params → Bool) → Method
  unfolding write_header
  call_bind_void params func stream position = elim (output host stream (tuple params) position) [
    | got tpl position' ↦
        if func tpl
        then write_header host (header_of true success)
        else write_header host (header_of false method_execution_error)
    | failed why position' ↦ write_header host (header_of false parameter_error)
    | overrun ↦ undefined
  ]

abbrev pub same_name : List ℕ → List ℕ → Bool
same_name [] [] = true
same_name (x ∷ xs) (y ∷ ys) = (x == y) && same_name xs ys
same_name xs ys = false

abbrev pub Registry : Type 0
Registry = List (List ℕ × Method)

unfoldable pub find_method : Registry → List ℕ → Option Method
find_method [] name = none
find_method ((name', method) ∷ rest) name =
    let more = find_method rest name in if same_name name' name then some method else more

abbrev pub is_some : Option Method → Bool
is_some none = false
is_some (some m) = true

unfoldable pub check : Registry → List ℕ → Bool
unfolding find_method
check registry name = is_some (find_method registry name)

-- A name is bound once.
unfoldable pub bind : Registry → List ℕ → Method → Registry × Bool
unfolding check
bind registry name method =
    if check registry name then (registry, false) else ((name, method) ∷ registry, true)

-- The function of an unknown name is empty, and its call throws.
unfoldable pub run_ensured : Registry → List ℕ → List ℕ → ℕ → Outcome (List ℕ)
unfolding find_method
run_ensured registry name stream position = elim (find_method registry name) [
  | none ↦ thrown
  | some method ↦ method stream position
]
