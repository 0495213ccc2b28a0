-- ===== src/Controller/Service.antt =====
-- `buildInferenceService`
use aperture_ai.Prelude.{String, [], ◌∷◌}
use aperture_ai.Prelude.Dict.{Labels}
use aperture_ai.Kube.{Kube}
use aperture_ai.Kube.Objects.{Service, new_meta}
use aperture_ai.V1alpha1.{GpuWorkload}
use aperture_ai.Controller.{inference_port}

abbrev workload_labels : String → Labels
workload_labels name = ("app", "aperture-inference") ∷ ("aperture.ai/workload", name) ∷ []

-- The third argument, the name of the Deployment, is not used.
unfoldable pub build_inference_service : {K : Kube} → GpuWorkload K → String → String → Service K
build_inference_service {K} workload svc_name deploy_name = record {
  metadata =
      new_meta K svc_name workload.metadata.namespace (workload_labels workload.metadata.name);
  spec = record {
    service_type = "ClusterIP";
    selector = workload_labels workload.metadata.name;
    ports =
        record {
          name = "http";
          port = inference_port;
          target_port = inference_port;
          protocol = "TCP";
        }
        ∷ [];
  };
}
