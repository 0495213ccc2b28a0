-- ===== src/Tests/Sample.antt =====
-- A list of one workload, whose node selector, tolerations and conditions lie in memory, with libraries
-- whose values are texts behind addresses.
use aperture_ai.Prelude.{◌≡◌, refl, String, eq_iff, ℕ, Option, none, some, [], ◌∷◌, pos, arith}
use aperture_ai.Prelude.Dict.{Labels, lookup}
use aperture_ai.Prelude.Region.{
  Region, load, store, reserve, Kept, Kept-refl, Kept-trans, Kept-reserve, Kept-store, load-Kept,
  load-store,
}
use aperture_ai.V1alpha1.Memory.{Element, Library, Slice, Spec, Status, Workload, WorkloadList, Mem}
use aperture_ai.V1alpha1.Memory.Laws.{IsMap, IsCopier, LibraryIsLawful}
use aperture_ai.V1alpha1.Memory.Holds.{
  anywhere, SpecValue, StatusValue, WorkloadValue, ListValue, SpecHolds, StatusHolds, WorkloadHolds,
  ListHolds,
}

-- The copy of a text stands at the next address.
abbrev copy_text : Option String → ℕ → Region String → ℕ × Region String
copy_text none p r = (p, r)
copy_text (some text) p r = (r.next, store r.next 0 text (reserve r))

abbrev texts : Element (Region String)
texts = record {
  Ref = ℕ;
  Value = String;
  deep_copy = λ p r. copy_text (load p 0 r) p r;
  value = λ p r. load p 0 r;
}

copy_text-Kept : (o : Option String) (p : ℕ) (r : Region String) → Kept r (copy_text o p r).1
copy_text-Kept none p r = Kept-refl r
copy_text-Kept (some text) p r = Kept-store r.next 0 text (Kept-reserve r) (omega arith)

pub texts-IsCopier : IsCopier Kept texts
texts-IsCopier = record {
  copied = λ p text r found. rw found (load-store r.next 0 text (reserve r) (omega arith));
  extended = λ p r. copy_text-Kept (load p 0 r) p r;
  value_kept = λ p text r r' k found. load-Kept p 0 text k found;
}

-- Another order than the one in which the entries were put in.
abbrev swapped : Labels → Labels
swapped (a ∷ b ∷ m) = b ∷ a ∷ m
swapped m = m

pub swapped-IsMap : (m : Labels) → IsMap m → IsMap (swapped m)
swapped-IsMap [] h = h
swapped-IsMap (a ∷ []) h = h
swapped-IsMap ((j, v) ∷ (k, w) ∷ m) h = ground (arith, eq_iff j k, eq_iff k j)

pub lookup-swapped : (q : String) (m : Labels) → IsMap m → lookup q (swapped m) ≡ lookup q m
lookup-swapped q [] h = refl
lookup-swapped q (a ∷ []) h = refl
lookup-swapped q ((j, v) ∷ (k, w) ∷ m) h =
    ground (arith, eq_iff j k, eq_iff k j, eq_iff j q, eq_iff k q)

abbrev pub toy_library : Library
toy_library = record {
  Memory = Region String;
  object_meta = texts;
  list_meta = texts;
  toleration = texts;
  condition = texts;
  time = texts;
  time_address = λ p. p;
  next_time = λ r. r.next;
  TypeMeta = String;
  range = swapped;
}

abbrev pub toy_lawful : LibraryIsLawful toy_library
toy_lawful = record {
  Extends = Kept;
  extends_refl = Kept-refl;
  extends_trans = λ r r' r'' k k'. Kept-trans k k';
  copies_object_meta = texts-IsCopier;
  copies_list_meta = texts-IsCopier;
  copies_toleration = texts-IsCopier;
  copies_condition = texts-IsCopier;
  copies_time = texts-IsCopier;
  time-new = λ p text r found. rw found (omega arith);
  next_time-grows = λ r r' k. k.kept_next;
  range-lookup = lookup-swapped;
  range-IsMap = swapped-IsMap;
}

-- A region with one value at address 0.
abbrev one : {A : Type 0} → A → Region A
one a = store 0 0 a (reserve (record { next = 0; cell = λ p i. none }))

abbrev pub selector : Labels
selector = ("zone", "a") ∷ ("tier", "gold") ∷ []

abbrev whole : ℕ → Slice
whole n = record { array = 0; first = 0; len = n }

abbrev pub the_spec : Spec toy_library
the_spec = record {
  model_name = "llama";
  gpu = pos 1;
  partition_mode = "none";
  token_quota = pos 10;
  kv_cache_gb = pos 2;
  node_selector = some 0;
  tolerations = some (whole 2);
  priority_class_name = "high";
}

abbrev pub the_status : Status toy_library
the_status = record {
  phase = "Running";
  conditions = some (whole 1);
  pod_name = "pod";
  message = "ready";
  start_time = some 1;
  observed_generation = pos 1;
}

abbrev pub the_workload : Workload toy_library
the_workload = record {
  type_meta = "GPUWorkload";
  object_meta = 0;
  spec = the_spec;
  status = the_status;
}

abbrev pub the_list : WorkloadList toy_library
the_list = record { type_meta = "GPUWorkload"; list_meta = 0; items = some (whole 1) }

abbrev pub memory : Mem toy_library
memory = record {
  lib = store 1 0 "noon" (reserve (one "meta"));
  maps = one selector;
  tolerations = store 0 1 0 (one 1);
  conditions = one 0;
  items = one the_workload;
  specs = one the_spec;
  statuses = one the_status;
  workloads = one the_workload;
  lists = one the_list;
}

abbrev pub spec_value : SpecValue toy_library
spec_value = record {
  model_name = "llama";
  gpu = pos 1;
  partition_mode = "none";
  token_quota = pos 10;
  kv_cache_gb = pos 2;
  node_selector = some (λ k. lookup k selector);
  tolerations = some ("noon" ∷ "meta" ∷ []);
  priority_class_name = "high";
}

abbrev pub status_value : StatusValue toy_library
status_value = record {
  phase = "Running";
  conditions = some ("meta" ∷ []);
  pod_name = "pod";
  message = "ready";
  start_time = some "noon";
  observed_generation = pos 1;
}

abbrev pub workload_value : WorkloadValue toy_library
workload_value = record {
  type_meta = "GPUWorkload";
  object_meta = "meta";
  spec = spec_value;
  status = status_value;
}

abbrev pub list_value : ListValue toy_library
list_value = record {
  type_meta = "GPUWorkload";
  list_meta = "meta";
  items = some (workload_value ∷ []);
}

pub the_spec-SpecHolds : SpecHolds anywhere the_spec memory spec_value
the_spec-SpecHolds = record {
  same_model_name = refl;
  same_gpu = refl;
  same_partition_mode = refl;
  same_token_quota = refl;
  same_kv_cache_gb = refl;
  same_priority_class_name = refl;
  holds_node_selector = (omega arith, (selector, refl, (refl, (refl, tt)), λ k. refl));
  holds_tolerations = (omega arith, refl, ((1, refl, refl), ((0, refl, refl), tt)));
}

pub the_status-StatusHolds : StatusHolds anywhere the_status memory status_value
the_status-StatusHolds = record {
  same_phase = refl;
  same_pod_name = refl;
  same_message = refl;
  same_observed_generation = refl;
  holds_conditions = (omega arith, refl, ((0, refl, refl), tt));
  holds_start_time = (omega arith, refl);
}

pub the_workload-WorkloadHolds : WorkloadHolds anywhere the_workload memory workload_value
the_workload-WorkloadHolds = record {
  same_type_meta = refl;
  holds_object_meta = refl;
  holds_spec = the_spec-SpecHolds;
  holds_status = the_status-StatusHolds;
}

pub the_list-ListHolds : ListHolds anywhere the_list memory list_value
the_list-ListHolds = record {
  same_list_type_meta = refl;
  holds_list_meta = refl;
  holds_items = (omega arith, refl, ((the_workload, refl, the_workload-WorkloadHolds), tt));
}
