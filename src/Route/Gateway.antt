-- ===== src/Route/Gateway.antt =====
-- Which route `sysm_get_default_gateway` of sysm-native/src/main/sysm.c takes.
use jni_demo_system_monitor.Base.{
  ℕ, ◌<◌, ◌≡◌, refl, sym, ap, ◌∙◌, arith, not, ◌&&◌, List, [], ◌∷◌, ◌++◌, append-nil, append_assoc,
  ◌⊎◌, inl, inr, Option, none, some, if◌then◌else◌, ◌==◌, All, Bytes, take, u32_mod, sysm_ok,
  Bool-cases,
}
use jni_demo_system_monitor.GrowList.Kinds.{net_route_list_create}
use jni_demo_system_monitor.GrowList.Push.{IsValid, reserve_room, store_lem, create-IsValid}
use jni_demo_system_monitor.GrowList.{GrowList, items, create, reserve, net_route_list_max}
use jni_demo_system_monitor.Net.Address.Hex.{hex8, hex2int-hex8}
use jni_demo_system_monitor.Net.Address.{
  NetAddress, hex2int, inet_ntoa, net_address_to_string, address_text,
}
use jni_demo_system_monitor.Net.Connection.{has_flag}
use jni_demo_system_monitor.Route.{
  NetRoute, ScannedRoute, rtf_gateway, set_word, to_route, is_dropped, add_route, add_routes,
  net_route_list_get, gateway_in, get_default_gateway,
}

-- A row as the kernel prints it: its addresses are words in eight hexadecimal digits.
pub record KernelRoute : Type 0 where
  pub row : ScannedRoute
  pub destination : ℕ
  pub gateway : ℕ
  pub mask : ℕ

abbrev pub IsPrinted : KernelRoute → Type 0
IsPrinted k =
    ((k.row).net_addr ≡ hex8 k.destination)
    × ((k.row).gate_addr ≡ hex8 k.gateway)
    × ((k.row).mask_addr ≡ hex8 k.mask)
    × (k.destination < u32_mod)
    × (k.gateway < u32_mod)
    × (k.mask < u32_mod)

pub rows_of : List KernelRoute → List ScannedRoute
rows_of [] = []
rows_of (k ∷ ks) = k.row ∷ rows_of ks

module _ (left : NetAddress) where
  pub route_of : KernelRoute → NetRoute
  route_of k = record {
    destination = set_word left k.destination;
    gateway = set_word left k.gateway;
    mask = set_word left k.mask;
    flags = (k.row).flags;
    refcnt = (k.row).refcnt;
    use_count = (k.row).use_count;
    metric = (k.row).metric;
    mtu = (k.row).mtu;
    window = (k.row).window;
    irtt = (k.row).irtt;
    ifname = (k.row).ifname;
  }

  -- The routes that are up and complete.
  pub routes_up : List KernelRoute → List NetRoute
  routes_up [] = []
  routes_up (k ∷ ks) =
      let later = routes_up ks in if is_dropped left k.row then later else route_of k ∷ later

  to_route-printed : (k : KernelRoute) → IsPrinted k → to_route left k.row ≡ some (route_of k)
  unfolding to_route route_of
  to_route-printed k (d, g, m, d_fits, g_fits, m_fits) =
      let read : (t : Bytes) (w : ℕ) → t ≡ hex8 w → w < u32_mod → hex2int t 8 ≡ some w =
        λ t w e fits.
          ap (λ (u : Bytes). hex2int u 8) (e ∙ sym (append-nil (hex8 w)))
          ∙ hex2int-hex8 w [] fits in
      rw
        (
          read (k.row).net_addr k.destination d d_fits,
          read (k.row).gate_addr k.gateway g g_fits,
          read (k.row).mask_addr k.mask m m_fits,
        )
        refl

  add_routes-printed :
      (ks : List KernelRoute) (l : GrowList NetRoute)
      → All IsPrinted ks
      → IsValid l
      → (l' : GrowList NetRoute) × (add_routes left (rows_of ks) l ≡ some l')
        × IsValid l'
        × (items l' ≡ items l ++ routes_up ks)
  unfolding add_routes add_route rows_of routes_up
  add_routes-printed [] l h v = (l, refl, v, sym (append-nil (items l)))
  add_routes-printed (k ∷ ks) l (h, hs) v =
      let (v1, room, same) = reserve_room net_route_list_max l (omega arith) v in
      let roomy = reserve net_route_list_max l in
      elim (Bool-cases (is_dropped left k.row)) [
        | inl e ↦
            let (l2, runs, v2, all) = add_routes-printed ks roomy hs v1 in
            (l2, rw e runs, v2, rw e (all ∙ ap (λ (xs : List NetRoute). xs ++ routes_up ks) same))
        | inr e ↦
            let (l1, stored, v1', more, _) = store_lem (route_of k) roomy v1 room in
            let (l2, runs, v2, all) = add_routes-printed ks l1 hs v1' in
            (
              l2,
              rw (e, to_route-printed k h, stored) runs,
              v2,
              rw e (
                  all
                  ∙ ap (λ (xs : List NetRoute). xs ++ routes_up ks) more
                  ∙ ap (λ (xs : List NetRoute). (xs ++ route_of k ∷ []) ++ routes_up ks) same
                  ∙ append_assoc (items l) (route_of k ∷ []) (routes_up ks)),
            )
      ]

  -- From rows as the kernel prints them, `sysm_net_route_list_get` succeeds, stores nothing outside
  -- its block, and lists exactly the routes that are up and have ten fields, in order, each with the
  -- addresses that were printed.
  pub net_route_list_get-routes_up :
      (ks : List KernelRoute)
      → All IsPrinted ks
      → (l : GrowList NetRoute) × (net_route_list_get left (inr (rows_of ks)) ≡ some (sysm_ok, l))
        × (items l ≡ routes_up ks)
  unfolding net_route_list_get net_route_list_create
  net_route_list_get-routes_up ks h =
      let (v, empty) = create-IsValid {A = NetRoute} net_route_list_max in
      let (l, runs, _, all) = add_routes-printed ks (create net_route_list_max) h v in
      (l, rw runs refl, all ∙ ap (λ (xs : List NetRoute). xs ++ routes_up ks) empty)

  -- The first route that is up and complete, is by a gateway, and goes to 0.0.0.0.
  pub first_default : List KernelRoute → Option KernelRoute
  first_default [] = none
  first_default (k ∷ ks) =
      let later = first_default ks in
      if not (is_dropped left k.row) && (has_flag (k.row).flags rtf_gateway && k.destination == 0)
      then some k
      else later

  pub gateway_of : Option KernelRoute → Bytes × Bytes → Bytes × Bytes
  gateway_of none info = info
  gateway_of (some k) info = (inet_ntoa k.gateway, take 256 (k.row).ifname)

  gateway_in-routes_up :
      (to_text : NetAddress → Bytes ⊎ ℕ) (ks : List KernelRoute) (info : Bytes × Bytes)
      → gateway_in left to_text (routes_up ks) info ≡ gateway_of (first_default ks) info
  unfolding gateway_in routes_up first_default gateway_of route_of net_address_to_string
      address_text
  gateway_in-routes_up to_text [] info = refl
  gateway_in-routes_up to_text (k ∷ ks) info = elim (Bool-cases (is_dropped left k.row)) [
    | inl e ↦ rw e (gateway_in-routes_up to_text ks info)
    | inr e ↦ elim (Bool-cases (has_flag (k.row).flags rtf_gateway && k.destination == 0)) [
      | inl f ↦ rw (e, f) refl
      | inr f ↦ rw (e, f) (gateway_in-routes_up to_text ks info)
    ]
  ]

  -- From rows as the kernel prints them, `sysm_get_default_gateway` succeeds, with the dotted address
  -- and the interface of the first route to 0.0.0.0 that is up, complete and by a gateway; without one
  -- it leaves both fields.
  pub get_default_gateway-first :
      (to_text : NetAddress → Bytes ⊎ ℕ) (ks : List KernelRoute) (info : Bytes × Bytes)
      → All IsPrinted ks
      → get_default_gateway left to_text (inr (rows_of ks)) info
        ≡ some (
          sysm_ok,
          (gateway_of (first_default ks) info).0,
          (gateway_of (first_default ks) info).1,
        )
  unfolding get_default_gateway
  get_default_gateway-first to_text ks info h =
      let (l, runs, all) = net_route_list_get-routes_up ks h in
      rw (runs, all, gateway_in-routes_up to_text ks info) refl
