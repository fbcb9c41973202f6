-- ===== src/Apis/Validation/VirtualServers/Accepted.antt =====
-- What a VirtualServer with no validation errors holds.
use aspenmesh_k3s_multiclust.Prelude.{
  ℕ, suc, String, ◌≡◌, ◌≢◌, refl, sym, subst, ◌⊎◌, inl, inr, Bool, false, List, [], ◌∷◌, ◌++◌, map,
  ◌==◌, eq_iff, Elem, append-empty, Distinct, Bool-cases,
}
use aspenmesh_k3s_multiclust.K8s.FieldErrors.{FieldPath, new_path, child, index, FieldError}
use aspenmesh_k3s_multiclust.Apis.Types.{Upstream, Route, VirtualServerSpec}
use aspenmesh_k3s_multiclust.Apis.Validation.{ValidationLibrary, has}
use aspenmesh_k3s_multiclust.Apis.Validation.Unique.{AreNew, no_values-AreNew, AreNew-cons}
use aspenmesh_k3s_multiclust.Apis.Validation.Names.{
  validate_host, validate_tls, validate_policies, validate_upstream_name,
}
use aspenmesh_k3s_multiclust.Apis.Validation.Upstreams.{
  checked_name, upstream_errors, validate_upstreams_from, validate_upstreams,
}
use aspenmesh_k3s_multiclust.Apis.Validation.Routes.{validate_route}
use aspenmesh_k3s_multiclust.Apis.Validation.Routes.Referred.{
  UsesDeclared, IsSplitOrAction, IsReferred, validate_route-IsReferred,
}
use aspenmesh_k3s_multiclust.Apis.Validation.VirtualServers.{
  checked_path, validate_virtual_server_routes_from, validate_virtual_server_routes,
  validate_virtual_server_spec, validate_virtual_server,
}

abbrev pub path_of : Route → String
path_of r = r.path

abbrev pub name_of : Upstream → String
name_of u = u.name

checked_path-empty :
    (errors : List FieldError) (route_path : String) (path : FieldPath) (paths : List String)
    → (checked_path errors route_path path paths).0 ≡ []
    → (errors ≡ [])
      × (has paths route_path ≡ false)
      × ((checked_path errors route_path path paths).1 ≡ route_path ∷ paths)
checked_path-empty (e ∷ es) route_path path paths h = cc
checked_path-empty [] route_path path paths h = elim (Bool-cases (has paths route_path)) [
  | inl e ↦ cc (rw e at h)
  | inr e ↦ (refl, e, rw e)
]

module _ (lib : ValidationLibrary) (is_plus : Bool) where
  checked_name-empty :
      (errors : List FieldError) (name : String) (path : FieldPath) (names : List String)
      → (checked_name lib errors name path names).0 ≡ []
      → (has names name ≡ false) × ((checked_name lib errors name path names).1 ≡ name ∷ names)
  checked_name-empty (e ∷ es) name path names h = cc
  checked_name-empty [] name path names h = elim (Bool-cases (has names name)) [
    | inl e ↦ cc (rw e at h)
    | inr e ↦ (e, rw e)
  ]

  -- The set of the names is that of the upstreams, with what was there before.
  upstreams-names :
      (path : FieldPath) (i : ℕ) (names : List String) (us : List Upstream) (name : String)
      → (validate_upstreams_from lib is_plus path i names us).0 ≡ []
      → Elem name (validate_upstreams_from lib is_plus path i names us).1
      → Elem name names ⊎ Elem name (map name_of us)
  unfolding validate_upstreams_from
  upstreams-names path i names [] name h m = inl m
  upstreams-names path i names (u ∷ us) name h m =
      let here = index path i in
      let errors = validate_upstream_name lib u.name (child here "name") in
      let (front, later) = append-empty (_ ++ upstream_errors lib is_plus u here) _ h in
      let own = (append-empty (checked_name lib errors u.name here names).0 _ front).0 in
      let (new, next) = checked_name-empty errors u.name here names own in
      elim (upstreams-names path (suc i) _ us name later m) [
        | inl n ↦ elim (subst (Elem name) next n) [ inl e ↦ inr (inl e) | inr k ↦ inl k ]
        | inr n ↦ inr (inr n)
      ]

  upstreams-AreNew :
      (path : FieldPath) (i : ℕ) (names : List String) (us : List Upstream)
      → (validate_upstreams_from lib is_plus path i names us).0 ≡ []
      → AreNew name_of names us
  unfolding validate_upstreams_from
  upstreams-AreNew path i names [] h = no_values-AreNew name_of names
  upstreams-AreNew path i names (u ∷ us) h =
      let here = index path i in
      let errors = validate_upstream_name lib u.name (child here "name") in
      let (front, later) = append-empty (_ ++ upstream_errors lib is_plus u here) _ h in
      let own = (append-empty (checked_name lib errors u.name here names).0 _ front).0 in
      let (new, next) = checked_name-empty errors u.name here names own in
      AreNew-cons name_of names u us new
        (subst (λ s. AreNew name_of s us) next (upstreams-AreNew path (suc i) _ us later))

  routes-AreNew :
      (path : FieldPath) (names : List String) (namespace : String) (i : ℕ) (paths : List String)
      (rs : List Route)
      → validate_virtual_server_routes_from lib is_plus path names namespace i paths rs ≡ []
      → ((r : Route) → Elem r rs → IsReferred names r) × AreNew path_of paths rs
  unfolding validate_virtual_server_routes_from
  routes-AreNew path names namespace i paths [] h =
      ((λ r m. elim m [ ]), no_values-AreNew path_of paths)
  routes-AreNew path names namespace i paths (r ∷ rs) h =
      let here = index path i in
      let errors = validate_route lib is_plus r here names false namespace in
      let (own, later) = append-empty (checked_path errors r.path here paths).0 _ h in
      let (none, new, next) = checked_path-empty errors r.path here paths own in
      let (referred, rest) = routes-AreNew path names namespace (suc i) _ rs later in
      (
        (λ s m. elim m [
          | inl e ↦
              subst (IsReferred names) (sym e)
                (validate_route-IsReferred lib is_plus names r here namespace none)
          | inr n ↦ referred s n
        ]),
        AreNew-cons path_of paths r rs new (subst (λ s. AreNew path_of s rs) next rest),
      )

host_given :
    (lib : ValidationLibrary) (host : String) (path : FieldPath)
    → validate_host lib host path ≡ []
    → host ≢ ""
unfolding validate_host
host_given lib host path h given = elim (Bool-cases (host == "")) [
  | inl e ↦ cc (rw e at h)
  | inr e ↦ cc ((eq_iff host "").1 given, e)
]

-- More names are no less.
module _ (names more : List String)
    (grow : (name : String) → Elem name names → Elem name more) where
  UsesDeclared-grow : (a : _) → UsesDeclared names a → UsesDeclared more a
  UsesDeclared-grow a u = record {
    passes = λ h. grow a.pass (u.passes h);
    proxies = λ p e. grow p.upstream (u.proxies p e);
  }

  IsSplitOrAction-grow :
      (action : _) (splits : _)
      → IsSplitOrAction names action splits
      → IsSplitOrAction more action splits
  IsSplitOrAction-grow action splits v = record {
    uses = λ a e. UsesDeclared-grow a (v.uses a e);
    divided = elim v.divided [
      | inl e ↦ inl e
      | inr d ↦ inr (record {
        several = d.several;
        whole = d.whole;
        actions = λ s m. let (a, e, u) = d.actions s m in (a, e, UsesDeclared-grow a u);
      })
    ];
  }

  IsReferred-grow : (r : Route) → IsReferred names r → IsReferred more r
  IsReferred-grow r v = record {
    one = v.one;
    served = IsSplitOrAction-grow r.action r.splits v.served;
    matches =
        λ m k. let (s, one) = v.matches m k in (IsSplitOrAction-grow m.action m.splits s, one);
  }

module _ (lib : ValidationLibrary) (is_plus : Bool) where
  -- When ValidateVirtualServer yields no error: the host is given, no two upstreams have one name,
  -- no two routes one path; each route has exactly one of an action, splits and a reference to a
  -- route, whether it has matches or not, and each of its matches exactly one of an action and
  -- splits; splits, in a route or in a match, are two or more with weights that sum up to 100; and
  -- every action, in a route, split or match, names upstreams of the VirtualServer only.
  pub validate_virtual_server-accepted :
      (spec : VirtualServerSpec) (namespace : String)
      → validate_virtual_server lib is_plus spec namespace ≡ []
      → (spec.host ≢ "")
        × Distinct (map name_of spec.upstreams)
        × Distinct (map path_of spec.routes)
        × ((r : Route) → Elem r spec.routes → IsReferred (map name_of spec.upstreams) r)
  unfolding validate_virtual_server validate_virtual_server_spec validate_upstreams
      validate_virtual_server_routes
  validate_virtual_server-accepted spec namespace h =
      let path = new_path "spec" in
      let checked =
        validate_upstreams_from lib is_plus (child path "upstreams") 0 [] spec.upstreams in
      let start =
        validate_host lib spec.host (child path "host")
        ++ validate_tls lib spec.tls (child path "tls") in
      let policies = validate_policies lib spec.policies (child path "policies") namespace in
      let (front, routes) = append-empty (start ++ policies ++ checked.0) _ h in
      let (before, upstreams) = append-empty (start ++ policies) checked.0 front in
      let host =
        (append-empty (validate_host lib spec.host (child path "host")) _
          (append-empty start policies before).0).0 in
      let (referred, apart) =
        routes-AreNew lib is_plus (child path "routes") checked.1 namespace 0 [] spec.routes
          routes in
      (
        host_given lib spec.host _ host,
        (upstreams-AreNew lib is_plus (child path "upstreams") 0 [] spec.upstreams upstreams).apart,
        apart.apart,
        λ r m.
            IsReferred-grow checked.1 (map name_of spec.upstreams)
              (λ name k.
                elim (upstreams-names lib is_plus (child path "upstreams") 0 [] spec.upstreams name
                  upstreams k) [ inl n ↦ elim n [ ] | inr n ↦ n ])
              r (referred r m),
      )
