-- ===== src/Tests/Toy.antt =====
-- Small stand-ins for the Kubernetes libraries: errors and quantities are texts.
use aperture_ai.Prelude.{
  ◌<>◌, String, Option, none, some, List, [], ◌∷◌, Bool, true, false, ℕ, pos, ◌==◌, refl, any,
  if◌then◌else◌, eqb,
}
use aperture_ai.Kube.{Kube}
use aperture_ai.Kube.Laws.{NotFoundIsLawful, QuantitiesAreLawful}
use aperture_ai.Kube.Objects.{NamespacedName}
use aperture_ai.V1alpha1.{GpuWorkload, GpuWorkloadSpec}
use aperture_ai.V1alpha1.Webhook.{Field}
use aperture_ai.Client.{Client, ok, SetControllerReference}
use aperture_ai.Client.Memory.{Cluster, memory_client, same_key}

abbrev pub drop_finalizer : List String → String → List String
drop_finalizer [] f = []
drop_finalizer (g ∷ l) f = if g == f then drop_finalizer l f else g ∷ drop_finalizer l f

abbrev pub has_finalizer : List String → String → Bool
has_finalizer l f = any (λ g. g == f) l

abbrev not_found? : Option String → Bool
not_found? none = false
not_found? (some e) = e == "NotFound"

abbrev zero? : Option ℕ → Bool
zero? none = true
zero? (some t) = eqb t 0

abbrev pub toy : Kube
toy = record {
  Error = String;
  error_text = λ e. e;
  is_not_found = not_found?;
  Time = ℕ;
  is_zero = zero?;
  Quantity = String;
  must_parse = λ s. some s;
  Toleration = String;
  Condition = String;
  OwnerReference = String;
  Scheme = Unit {0};
  contains_finalizer = has_finalizer;
  add_finalizer = λ l f. if has_finalizer l f then l else f ∷ l;
  remove_finalizer = drop_finalizer;
}

pub toy-NotFoundIsLawful : NotFoundIsLawful toy
toy-NotFoundIsLawful = record { not_found-nil = refl }

pub toy-QuantitiesAreLawful : QuantitiesAreLawful toy
toy-QuantitiesAreLawful = record {
  parses-memory_limit = λ e. cc;
  parses-cpu_limit = λ e. cc;
  parses-memory_request = λ e. cc;
  parses-cpu_request = λ e. cc;
  parses-preload_memory_limit = λ e. cc;
  parses-preload_cpu_limit = λ e. cc;
  parses-preload_cpu_request = λ e. cc;
  parses-number = λ n e. cc;
}

abbrev pub toy_field : Field
toy_field = record {
  FieldPath = String;
  new_path = λ s. s;
  child = λ p s. p <> ("." <> s);
  Error = String × String;
  required = λ p s. (p, s);
  invalid = λ p n s. (p, s);
  not_supported = λ p s l. (p, s);
  aggregate = λ l. "errors";
  is_print = λ c. true;
}

-- Sets one owner reference; nothing can own an object already.
abbrev pub toy_reference : SetControllerReference toy
toy_reference w m scheme = ok (record m { owner_references = w.metadata.name ∷ [] })

abbrev pub toy_client : Client toy
toy_client = memory_client toy "NotFound" "AlreadyExists"

-- The spec of the sample workload.
abbrev pub sample_spec : GpuWorkloadSpec toy
sample_spec = record {
  model_name = "facebook/opt-125m";
  gpu = pos 1;
  partition_mode = "MPS";
  token_quota = pos 50000;
  kv_cache_gb = pos 4;
  node_selector = [];
  tolerations = [];
  priority_class_name = "";
}

-- The workload of the tests, with given finalizers, deletion time and phase.
abbrev pub workload : List String → Option ℕ → String → GpuWorkload toy
workload finalizers deletion phase = record {
  metadata = record {
    name = "test-workload";
    namespace = "default";
    labels = [];
    deletion_timestamp = deletion;
    finalizers = finalizers;
    owner_references = [];
  };
  spec = sample_spec;
  status = record {
    phase = phase;
    conditions = [];
    pod_name = "";
    message = "";
    start_time = none;
    observed_generation = pos 0;
  };
}

abbrev pub test_key : NamespacedName
test_key = record { name = "test-workload"; namespace = "default" }

-- A cluster that holds one workload and nothing else.
abbrev pub cluster : GpuWorkload toy → Cluster toy
cluster w = record {
  workloads = λ k. if same_key test_key k then some w else none;
  deployments = λ k. none;
  services = λ k. none;
}
