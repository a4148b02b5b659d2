-- ===== src/Net/Walk/Collect.antt =====
-- What the walkers of `sysm_net_connection_list_get` and `sysm_net_connection_get` gather from a file.
use jni_demo_system_monitor.Base.{
  ℕ, ◌+◌, ◌≤◌, List, [], ◌∷◌, ◌++◌, append-nil, append_assoc, inl, inr, Option, none, some, ◌==◌,
  ◌&&◌, if◌then◌else◌, ◌≡◌, refl, ap, sym, ◌∙◌, arith, Bytes, sysm_ok, Bool-cases,
}
use jni_demo_system_monitor.GrowList.Kinds.{net_connection_list_push}
use jni_demo_system_monitor.GrowList.Push.{IsValid, push_lem}
use jni_demo_system_monitor.GrowList.{GrowList, items, net_connlist_max}
use jni_demo_system_monitor.Net.Connection.{NetConnection, read_line}
use jni_demo_system_monitor.Net.Walk.{
  Files, read_lines, open_proc, proc_net_read, collect_walker, port_walker,
}

-- The lines can be read, and those that are wanted give these connections, in order.
pub data ReadsAs (files : Files) (flags type : ℕ) : List Bytes → List NetConnection → Type 0 where
  none_left : ReadsAs files flags type [] []
  unwanted :
      {line : Bytes} {lines : List Bytes} {cs : List NetConnection}
      → read_line files.stale_lo files.stale_re flags type line ≡ some none
      → ReadsAs files flags type lines cs
      → ReadsAs files flags type (line ∷ lines) cs
  taken :
      {line : Bytes} {conn : NetConnection} {lines : List Bytes} {cs : List NetConnection}
      → read_line files.stale_lo files.stale_re flags type line ≡ some (some conn)
      → ReadsAs files flags type lines cs
      → ReadsAs files flags type (line ∷ lines) (conn ∷ cs)

-- A list of connections that may be pushed to.
abbrev pub IsReady : GrowList NetConnection → Type 0
IsReady l = IsValid l × (l.size ≤ l.number + net_connlist_max)

-- The call succeeds with `status`, and appends the connections to `l`.
abbrev pub Appends :
    GrowList NetConnection → List NetConnection → Option (GrowList NetConnection) → Type 0
Appends l cs r =
    (l' : GrowList NetConnection) × (r ≡ some l') × IsReady l' × (items l' ≡ items l ++ cs)

module _ (files : Files) (flags type : ℕ) where
  read_lines-Appends :
      {lines : List Bytes} {cs : List NetConnection}
      → ReadsAs files flags type lines cs
      → (l : GrowList NetConnection) → IsReady l
      → Appends l cs (read_lines files collect_walker flags type lines l)
  unfolding read_lines collect_walker net_connection_list_push
  read_lines-Appends none_left l ready = (l, refl, ready, sym (append-nil (items l)))
  read_lines-Appends (unwanted h rest) l ready =
      let (l', runs, ready', all) = read_lines-Appends rest l ready in (l', rw h runs, ready', all)
  read_lines-Appends (taken {conn = conn} {cs = cs} h rest) l (valid, tight) =
      let (l1, pushed, valid1, more, counted, tight1) =
        push_lem net_connlist_max conn l (omega arith) valid tight in
      let (l2, runs, ready2, all) = read_lines-Appends rest l1 (valid1, tight1) in
      (
        l2,
        rw (h, pushed) runs,
        ready2,
        all
            ∙ ap (λ (xs : List NetConnection). xs ++ cs) more
            ∙ append_assoc (items l) (conn ∷ []) cs,
      )

  -- With the walker of `sysm_net_connection_list_get`, reading a file that opens and whose lines
  -- behind the header can be read succeeds, and appends exactly the wanted connections of those
  -- lines, in order, to a well-formed list, without a store outside its block.
  pub proc_net_read-collect :
      (fname header : Bytes) {lines : List Bytes} {cs : List NetConnection}
      (l : GrowList NetConnection)
      → open_proc files fname ≡ inr (header ∷ lines)
      → ReadsAs files flags type lines cs
      → IsReady l
      → (l' : GrowList NetConnection) × (proc_net_read files collect_walker flags fname type l
          ≡ some (sysm_ok, l'))
        × IsReady l'
        × (items l' ≡ items l ++ cs)
  unfolding proc_net_read
  proc_net_read-collect fname header l opened reads ready =
      let (l', runs, ready', all) = read_lines-Appends reads l ready in
      (l', rw (opened, proc_net_read, runs), ready', all)

  -- The first connection that is a server on the port.
  pub first_server : ℕ → NetConnection → List NetConnection → NetConnection
  first_server port found [] = found
  first_server port found (conn ∷ cs) =
      let rest = first_server port found cs in
      if port == conn.lo_port && conn.re_port == 0 then conn else rest

  read_lines-port :
      {lines : List Bytes} {cs : List NetConnection}
      → ReadsAs files flags type lines cs
      → (port : ℕ) (found : NetConnection)
      → read_lines files (port_walker port) flags type lines found
        ≡ some (first_server port found cs)
  unfolding read_lines port_walker first_server
  read_lines-port none_left port found = refl
  read_lines-port (unwanted h rest) port found = rw h (read_lines-port rest port found)
  read_lines-port (taken {conn = conn} h rest) port found =
      elim (Bool-cases (port == conn.lo_port && conn.re_port == 0)) [
        | inl hit ↦ rw (h, hit)
        | inr miss ↦ rw (h, miss) (read_lines-port rest port found)
      ]

  -- With the walker of `sysm_net_connection_get`, reading such a file succeeds with the first
  -- connection of the file that is a server on the port, or with what was there if none is.
  pub proc_net_read-port :
      (fname header : Bytes) {lines : List Bytes} {cs : List NetConnection} (port : ℕ)
      (found : NetConnection)
      → open_proc files fname ≡ inr (header ∷ lines)
      → ReadsAs files flags type lines cs
      → proc_net_read files (port_walker port) flags fname type found
        ≡ some (sysm_ok, first_server port found cs)
  unfolding proc_net_read
  proc_net_read-port fname header port found opened reads =
      rw (opened, proc_net_read, read_lines-port reads port found)
