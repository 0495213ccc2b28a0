-- ===== src/V1alpha1/DeepCopy.antt =====
-- operator/api/v1alpha1/zz_generated_deepcopy.go, over an explicit memory. `DeepCopyInto` gives the
-- struct that it writes to `*out`; a fault (`none`) is a read through a pointer that leads nowhere.
pub mod Maps
pub mod Slices
pub mod Structs
pub mod Workloads
pub mod Pointers
pub mod Objects
use aperture_ai.Prelude.{ℕ, zero, suc, ◌+◌, Option, none, some, [], ◌∷◌}
use aperture_ai.Prelude.Dict.{Labels, insert}
use aperture_ai.Prelude.Region.{load, reserve, store}
use aperture_ai.V1alpha1.Memory.{
  Element, Library, Slice, Spec, Status, Workload, WorkloadList, Mem, Place, maps_place,
  tolerations_place, conditions_place, items_place, specs_place, statuses_place, workloads_place,
  lists_place,
}

module _ (L : Library) where
  abbrev pub Cmd : Type 0 → Type 0
  Cmd A = Mem L → Option (A × Mem L)

module _ {L : Library} {A B : Type 0} where
  abbrev pub and_then : Option (A × Mem L) → (A → Cmd L B) → Option (B × Mem L)
  and_then none f = none
  and_then (some (a, m)) f = f a m

  infixl 10 ◌>>=◌
  abbrev pub ◌>>=◌ : Cmd L A → (A → Cmd L B) → Cmd L B
  ◌>>=◌ c f m = and_then (c m) f

module _ {L : Library} where
  abbrev pub pure : {A : Type 0} → A → Cmd L A
  pure a m = some (a, m)

  infixl 10 ◌>>◌
  abbrev pub ◌>>◌ : {B : Type 0} → Cmd L (Unit {0}) → Cmd L B → Cmd L B
  c >> d = c >>= λ _. d

  -- A call of the libraries.
  abbrev pub call : (E : Element L.Memory) → E.Ref → Cmd L E.Ref
  call E a m = let (b, lib) = E.deep_copy a m.lib in some (b, record m { lib = lib })

  abbrev pub seen : {A : Type 0} → Option A → Cmd L A
  seen none m = none
  seen (some a) m = some (a, m)

  module _ {A : Type 0} (P : Place L A) where
    abbrev pub read : ℕ → ℕ → Cmd L A
    read p i m = seen (load p i (P.get m)) m

    abbrev pub write : ℕ → ℕ → A → Cmd L (Unit {0})
    write p i a m = some (tt, P.put (store p i a (P.get m)) m)

    abbrev pub fresh : Cmd L ℕ
    fresh m = some ((P.get m).next, P.put (reserve (P.get m)) m)

    -- `for i := range *in { (*in)[i].DeepCopyInto(&(*out)[i]) }`, from `i` on for `n` rounds
    unfoldable pub copy_elems : (A → Cmd L A) → Slice → ℕ → ℕ → ℕ → Cmd L (Unit {0})
    copy_elems copy from out zero i = pure tt
    copy_elems copy from out (suc n) i = do
      a ← read from.array (from.first + i)
      b ← copy a
      write out i b
      copy_elems copy from out n (suc i)

    -- `if in.… != nil { *out = make(…, len(*in)); … }`
    unfoldable pub copy_slice : (A → Cmd L A) → Option Slice → Cmd L (Option Slice)
    unfolding copy_elems
    copy_slice copy none = pure none
    copy_slice copy (some from) = do
      out ← fresh
      copy_elems copy from out from.len 0
      pure (some (record { array = out; first = 0; len = from.len }))

    -- `DeepCopy`: `new` and `DeepCopyInto`
    unfoldable pub deep_copy_of : (A → Cmd L A) → Option ℕ → Cmd L (Option ℕ)
    deep_copy_of copy none = pure none
    deep_copy_of copy (some p) = do
      out ← fresh
      a ← read p 0
      b ← copy a
      write out 0 b
      pure (some out)

  -- `for key, val := range *in { (*out)[key] = val }`
  unfoldable pub insert_entries : ℕ → Labels → Cmd L (Unit {0})
  insert_entries out [] = pure tt
  insert_entries out ((key, val) ∷ entries) = do
    m ← read maps_place out 0
    write maps_place out 0 (insert key val m)
    insert_entries out entries

  unfoldable pub copy_map : Option ℕ → Cmd L (Option ℕ)
  unfolding insert_entries
  copy_map none = pure none
  copy_map (some p) = do
    out ← fresh maps_place
    write maps_place out 0 []
    m ← read maps_place p 0
    insert_entries out (L.range m)
    pure (some out)

  unfoldable pub copy_time : Option L.time.Ref → Cmd L (Option L.time.Ref)
  copy_time none = pure none
  copy_time (some t) = do copy ← call L.time t; pure (some copy)

  unfoldable pub copy_spec : Spec L → Cmd L (Spec L)
  unfolding copy_map copy_slice
  copy_spec in_spec = do
    selector ← copy_map in_spec.node_selector
    tolerations ← copy_slice tolerations_place (call L.toleration) in_spec.tolerations
    pure (record in_spec { node_selector = selector; tolerations = tolerations })

  unfoldable pub copy_status : Status L → Cmd L (Status L)
  unfolding copy_slice copy_time
  copy_status in_status = do
    conditions ← copy_slice conditions_place (call L.condition) in_status.conditions
    start_time ← copy_time in_status.start_time
    pure (record in_status { conditions = conditions; start_time = start_time })

  unfoldable pub copy_workload : Workload L → Cmd L (Workload L)
  unfolding copy_spec copy_status
  copy_workload in_workload = do
    object_meta ← call L.object_meta in_workload.object_meta
    spec ← copy_spec in_workload.spec
    status ← copy_status in_workload.status
    pure (record in_workload { object_meta = object_meta; spec = spec; status = status })

  unfoldable pub copy_list : WorkloadList L → Cmd L (WorkloadList L)
  unfolding copy_slice copy_workload
  copy_list in_list = do
    list_meta ← call L.list_meta in_list.list_meta
    items ← copy_slice items_place copy_workload in_list.items
    pure (record in_list { list_meta = list_meta; items = items })

  -- `DeepCopy` of a spec, a status, a workload and a list
  unfoldable pub deep_copy_spec : Option ℕ → Cmd L (Option ℕ)
  unfolding deep_copy_of copy_spec
  deep_copy_spec = deep_copy_of specs_place copy_spec

  unfoldable pub deep_copy_status : Option ℕ → Cmd L (Option ℕ)
  unfolding deep_copy_of copy_status
  deep_copy_status = deep_copy_of statuses_place copy_status

  unfoldable pub deep_copy_workload : Option ℕ → Cmd L (Option ℕ)
  unfolding deep_copy_of copy_workload
  deep_copy_workload = deep_copy_of workloads_place copy_workload

  unfoldable pub deep_copy_list : Option ℕ → Cmd L (Option ℕ)
  unfolding deep_copy_of copy_list
  deep_copy_list = deep_copy_of lists_place copy_list

-- runtime.Object, of which nil is `none`
pub data Object : Type 0 where
  workload : ℕ → Object
  workload_list : ℕ → Object

-- A nil pointer becomes a nil interface.
abbrev pub as_object : (ℕ → Object) → Option ℕ → Option Object
as_object tag none = none
as_object tag (some p) = some (tag p)

module _ {L : Library} where
  -- `DeepCopyObject`
  unfoldable pub deep_copy_object : Option ℕ → Cmd L (Option Object)
  unfolding deep_copy_workload
  deep_copy_object p = do c ← deep_copy_workload p; pure (as_object workload c)

  unfoldable pub deep_copy_list_object : Option ℕ → Cmd L (Option Object)
  unfolding deep_copy_list
  deep_copy_list_object p = do c ← deep_copy_list p; pure (as_object workload_list c)
