-- ===== src/V1alpha1/Memory/Places.antt =====
-- Every region is a lawful place.
use aperture_ai.Prelude.{refl}
use aperture_ai.Prelude.Region.{Kept-refl, Kept-trans}
use aperture_ai.V1alpha1.Memory.{
  Library, maps_place, tolerations_place, conditions_place, items_place, specs_place,
  statuses_place, workloads_place, lists_place,
}
use aperture_ai.V1alpha1.Memory.Laws.{LibraryIsLawful, PlaceIsLawful, RestIsLawful}

module _ {L : Library} (lawful : LibraryIsLawful L) where
  pub maps-PlaceIsLawful : PlaceIsLawful lawful maps_place
  maps-PlaceIsLawful = record {
    get-put = λ r m. refl;
    kept_get = λ k. k.keeps_maps;
    keeps_put = λ r k h. record {
      keeps_lib = k.keeps_lib;
      keeps_maps = h;
      keeps_tolerations = k.keeps_tolerations;
      keeps_conditions = k.keeps_conditions;
      keeps_items = k.keeps_items;
      keeps_specs = k.keeps_specs;
      keeps_statuses = k.keeps_statuses;
      keeps_workloads = k.keeps_workloads;
      keeps_lists = k.keeps_lists;
    };
  }

  pub tolerations-PlaceIsLawful : PlaceIsLawful lawful tolerations_place
  tolerations-PlaceIsLawful = record {
    get-put = λ r m. refl;
    kept_get = λ k. k.keeps_tolerations;
    keeps_put = λ r k h. record {
      keeps_lib = k.keeps_lib;
      keeps_maps = k.keeps_maps;
      keeps_tolerations = h;
      keeps_conditions = k.keeps_conditions;
      keeps_items = k.keeps_items;
      keeps_specs = k.keeps_specs;
      keeps_statuses = k.keeps_statuses;
      keeps_workloads = k.keeps_workloads;
      keeps_lists = k.keeps_lists;
    };
  }

  pub conditions-PlaceIsLawful : PlaceIsLawful lawful conditions_place
  conditions-PlaceIsLawful = record {
    get-put = λ r m. refl;
    kept_get = λ k. k.keeps_conditions;
    keeps_put = λ r k h. record {
      keeps_lib = k.keeps_lib;
      keeps_maps = k.keeps_maps;
      keeps_tolerations = k.keeps_tolerations;
      keeps_conditions = h;
      keeps_items = k.keeps_items;
      keeps_specs = k.keeps_specs;
      keeps_statuses = k.keeps_statuses;
      keeps_workloads = k.keeps_workloads;
      keeps_lists = k.keeps_lists;
    };
  }

  pub items-PlaceIsLawful : PlaceIsLawful lawful items_place
  items-PlaceIsLawful = record {
    get-put = λ r m. refl;
    kept_get = λ k. k.keeps_items;
    keeps_put = λ r k h. record {
      keeps_lib = k.keeps_lib;
      keeps_maps = k.keeps_maps;
      keeps_tolerations = k.keeps_tolerations;
      keeps_conditions = k.keeps_conditions;
      keeps_items = h;
      keeps_specs = k.keeps_specs;
      keeps_statuses = k.keeps_statuses;
      keeps_workloads = k.keeps_workloads;
      keeps_lists = k.keeps_lists;
    };
  }

  pub specs-PlaceIsLawful : PlaceIsLawful lawful specs_place
  specs-PlaceIsLawful = record {
    get-put = λ r m. refl;
    kept_get = λ k. k.keeps_specs;
    keeps_put = λ r k h. record {
      keeps_lib = k.keeps_lib;
      keeps_maps = k.keeps_maps;
      keeps_tolerations = k.keeps_tolerations;
      keeps_conditions = k.keeps_conditions;
      keeps_items = k.keeps_items;
      keeps_specs = h;
      keeps_statuses = k.keeps_statuses;
      keeps_workloads = k.keeps_workloads;
      keeps_lists = k.keeps_lists;
    };
  }

  pub statuses-PlaceIsLawful : PlaceIsLawful lawful statuses_place
  statuses-PlaceIsLawful = record {
    get-put = λ r m. refl;
    kept_get = λ k. k.keeps_statuses;
    keeps_put = λ r k h. record {
      keeps_lib = k.keeps_lib;
      keeps_maps = k.keeps_maps;
      keeps_tolerations = k.keeps_tolerations;
      keeps_conditions = k.keeps_conditions;
      keeps_items = k.keeps_items;
      keeps_specs = k.keeps_specs;
      keeps_statuses = h;
      keeps_workloads = k.keeps_workloads;
      keeps_lists = k.keeps_lists;
    };
  }

  pub workloads-PlaceIsLawful : PlaceIsLawful lawful workloads_place
  workloads-PlaceIsLawful = record {
    get-put = λ r m. refl;
    kept_get = λ k. k.keeps_workloads;
    keeps_put = λ r k h. record {
      keeps_lib = k.keeps_lib;
      keeps_maps = k.keeps_maps;
      keeps_tolerations = k.keeps_tolerations;
      keeps_conditions = k.keeps_conditions;
      keeps_items = k.keeps_items;
      keeps_specs = k.keeps_specs;
      keeps_statuses = k.keeps_statuses;
      keeps_workloads = h;
      keeps_lists = k.keeps_lists;
    };
  }

  pub lists-PlaceIsLawful : PlaceIsLawful lawful lists_place
  lists-PlaceIsLawful = record {
    get-put = λ r m. refl;
    kept_get = λ k. k.keeps_lists;
    keeps_put = λ r k h. record {
      keeps_lib = k.keeps_lib;
      keeps_maps = k.keeps_maps;
      keeps_tolerations = k.keeps_tolerations;
      keeps_conditions = k.keeps_conditions;
      keeps_items = k.keeps_items;
      keeps_specs = k.keeps_specs;
      keeps_statuses = k.keeps_statuses;
      keeps_workloads = k.keeps_workloads;
      keeps_lists = h;
    };
  }

  pub tolerations-RestIsLawful : RestIsLawful lawful tolerations_place
  tolerations-RestIsLawful = record {
    put-get = λ m. refl;
    put-put = λ r r' m. refl;
    keeps_rest = λ k k'. record {
      keeps_lib = lawful.extends_trans _ _ _ k.keeps_lib k'.keeps_lib;
      keeps_maps = Kept-trans k.keeps_maps k'.keeps_maps;
      keeps_tolerations = Kept-refl _;
      keeps_conditions = Kept-trans k.keeps_conditions k'.keeps_conditions;
      keeps_items = Kept-trans k.keeps_items k'.keeps_items;
      keeps_specs = Kept-trans k.keeps_specs k'.keeps_specs;
      keeps_statuses = Kept-trans k.keeps_statuses k'.keeps_statuses;
      keeps_workloads = Kept-trans k.keeps_workloads k'.keeps_workloads;
      keeps_lists = Kept-trans k.keeps_lists k'.keeps_lists;
    };
  }

  pub conditions-RestIsLawful : RestIsLawful lawful conditions_place
  conditions-RestIsLawful = record {
    put-get = λ m. refl;
    put-put = λ r r' m. refl;
    keeps_rest = λ k k'. record {
      keeps_lib = lawful.extends_trans _ _ _ k.keeps_lib k'.keeps_lib;
      keeps_maps = Kept-trans k.keeps_maps k'.keeps_maps;
      keeps_tolerations = Kept-trans k.keeps_tolerations k'.keeps_tolerations;
      keeps_conditions = Kept-refl _;
      keeps_items = Kept-trans k.keeps_items k'.keeps_items;
      keeps_specs = Kept-trans k.keeps_specs k'.keeps_specs;
      keeps_statuses = Kept-trans k.keeps_statuses k'.keeps_statuses;
      keeps_workloads = Kept-trans k.keeps_workloads k'.keeps_workloads;
      keeps_lists = Kept-trans k.keeps_lists k'.keeps_lists;
    };
  }

  pub items-RestIsLawful : RestIsLawful lawful items_place
  items-RestIsLawful = record {
    put-get = λ m. refl;
    put-put = λ r r' m. refl;
    keeps_rest = λ k k'. record {
      keeps_lib = lawful.extends_trans _ _ _ k.keeps_lib k'.keeps_lib;
      keeps_maps = Kept-trans k.keeps_maps k'.keeps_maps;
      keeps_tolerations = Kept-trans k.keeps_tolerations k'.keeps_tolerations;
      keeps_conditions = Kept-trans k.keeps_conditions k'.keeps_conditions;
      keeps_items = Kept-refl _;
      keeps_specs = Kept-trans k.keeps_specs k'.keeps_specs;
      keeps_statuses = Kept-trans k.keeps_statuses k'.keeps_statuses;
      keeps_workloads = Kept-trans k.keeps_workloads k'.keeps_workloads;
      keeps_lists = Kept-trans k.keeps_lists k'.keeps_lists;
    };
  }
