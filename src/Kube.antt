-- ===== src/Kube.antt =====
-- What the operator takes from the Kubernetes libraries (k8s.io/apimachinery, k8s.io/api and
-- sigs.k8s.io/controller-runtime). Their code is not part of the repository, so it is a parameter:
-- `Kube` has the types and the pure functions, and `Kube/Client.antt` the calls of the API server.
-- `Kube/Objects.antt` has the object types, with the fields that the operator names.
pub mod Objects
pub mod Laws
use aperture_ai.Prelude.{String, Bool, Option, List}

pub record Kube : Type 1 where
  -- What a call of the API server may fail with, the text that its `Error` method gives, and
  -- `errors.IsNotFound`, which may be asked of a nil error too.
  pub Error : Type 0
  pub error_text : Error → String
  pub is_not_found : Option Error → Bool
  -- metav1.Time, and its method `IsZero` on a pointer.
  pub Time : Type 0
  pub is_zero : Option Time → Bool
  -- resource.Quantity, and `resource.MustParse`, with `none` where it panics.
  pub Quantity : Type 0
  pub must_parse : String → Option Quantity
  -- corev1.Toleration, metav1.Condition, metav1.OwnerReference and runtime.Scheme.
  pub Toleration : Type 0
  pub Condition : Type 0
  pub OwnerReference : Type 0
  pub Scheme : Type 0
  -- `ContainsFinalizer`, `AddFinalizer` and `RemoveFinalizer` of controllerutil, on the object's
  -- list of finalizers, which is the one part of the object that they read and write.
  pub contains_finalizer : List String → String → Bool
  pub add_finalizer : List String → String → List String
  pub remove_finalizer : List String → String → List String
