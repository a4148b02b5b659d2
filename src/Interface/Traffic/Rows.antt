-- ===== src/Interface/Traffic/Rows.antt =====
-- The rows of /proc/net/dev that `sysm_net_interface_stat_get` of sysm-native/src/main/sysm.c reads.
use jni_demo_system_monitor.Base.{
  ℕ, ◌-◌, ◌≡◌, refl, ◌∙◌, arith, true, false, List, [], ◌∷◌, ◌++◌, Option, none, some, inr, inl,
  ◌==◌, if◌then◌else◌, length, length-append, take-append, All, Bytes, u64_mod, sysm_ok, enxio,
  Bool-cases,
}
use jni_demo_system_monitor.Interface.Traffic.{
  InterfaceStat, read_traffic, after_name, of_interface, traffic_or, find_traffic,
  net_interface_stat_get,
}
use jni_demo_system_monitor.Text.{is_space, drop_while, str_eq}
use jni_demo_system_monitor.Text.Search.{strchr-append}
use jni_demo_system_monitor.Text.Spaced.{
  spaced, IsNumber, Ends, strtoul-spaced, skip_multiple_token-spaced,
}
use jni_demo_system_monitor.Text.Token.{IsWord, value, drop_while-append, drop_while_stop}

-- A row: white space, the name of the interface, a colon, and the columns by their names in the
-- kernel's header line.
pub record Row : Type 0 where
  pub pad : Bytes
  pub name : Bytes
  pub bytes : Bytes
  pub packets : Bytes
  pub errs : Bytes
  pub drops : Bytes
  pub fifo : Bytes
  pub frame : Bytes
  pub compressed : Bytes
  pub multicast : Bytes
  pub sent_bytes : Bytes
  pub sent_packets : Bytes
  pub sent_errs : Bytes
  pub sent_drops : Bytes
  pub sent_fifo : Bytes
  pub colls : Bytes
  pub carrier : Bytes
  pub rest : Bytes

unfoldable pub from_sent : Row → List Bytes
from_sent r =
    r.sent_bytes ∷ r.sent_packets ∷ r.sent_errs ∷ r.sent_drops ∷ r.sent_fifo ∷ r.colls ∷ r.carrier
    ∷ []

unfoldable pub columns : Row → List Bytes
unfolding from_sent
columns r =
    r.bytes
    ∷ r.packets
    ∷ r.errs
    ∷ r.drops
    ∷ r.fifo
    ∷ r.frame
    ∷ r.compressed
    ∷ r.multicast
    ∷ from_sent r

pub row_line : Row → Bytes
row_line r = r.pad ++ (r.name ++ b':' ∷ spaced (columns r) r.rest)

pub row_lines : List Row → List Bytes
row_lines [] = []
row_lines (r ∷ rs) = row_line r ∷ row_lines rs

-- The columns are numbers of 64 bits, and the name has neither a colon nor white space.
abbrev pub IsRow : Row → Type 0
IsRow r =
    All (λ c. is_space c ≡ true) r.pad
    × IsWord r.name
    × All (λ c. (c == b':') ≡ false) r.name
    × All IsNumber (columns r)
    × All IsWord (r.compressed ∷ r.multicast ∷ [])
    × Ends r.rest

pub traffic_of : Row → InterfaceStat
traffic_of r = record {
  rx_bytes = value 0 r.bytes;
  rx_packets = value 0 r.packets;
  rx_errors = value 0 r.errs;
  rx_dropped = value 0 r.drops;
  rx_overruns = value 0 r.fifo;
  rx_frame = value 0 r.frame;
  tx_bytes = value 0 r.sent_bytes;
  tx_packets = value 0 r.sent_packets;
  tx_errors = value 0 r.sent_errs;
  tx_dropped = value 0 r.sent_drops;
  tx_overruns = value 0 r.sent_fifo;
  tx_collisions = value 0 r.colls;
  tx_carrier = value 0 r.carrier;
  speed = u64_mod - 1;
}

-- The first row of the interface.
pub first_row : Bytes → List Row → Option Row
first_row name [] = none
first_row name (r ∷ rs) =
    let later = first_row name rs in if str_eq r.name name then some r else later

read_traffic-columns :
    (r : Row)
    → All IsNumber (columns r)
    → All IsWord (r.compressed ∷ r.multicast ∷ [])
    → Ends r.rest
    → read_traffic (spaced (columns r) r.rest) ≡ traffic_of r
unfolding read_traffic columns from_sent traffic_of
read_traffic-columns r
      (n1, (n2, (n3, (n4, (n5, (n6, (_, (_, (m1, (m2, (m3, (m4, (m5, (m6, (m7, _)))))))))))))))
      words (break, stop) =
    rw
      (
        strtoul-spaced r.bytes
            (r.packets
              ∷ r.errs
              ∷ r.drops
              ∷ r.fifo
              ∷ r.frame
              ∷ r.compressed
              ∷ r.multicast
              ∷ from_sent r)
            r.rest n1 stop,
        strtoul-spaced r.packets
            (r.errs ∷ r.drops ∷ r.fifo ∷ r.frame ∷ r.compressed ∷ r.multicast ∷ from_sent r) r.rest
            n2 stop,
        strtoul-spaced r.errs
            (r.drops ∷ r.fifo ∷ r.frame ∷ r.compressed ∷ r.multicast ∷ from_sent r) r.rest n3 stop,
        strtoul-spaced r.drops (r.fifo ∷ r.frame ∷ r.compressed ∷ r.multicast ∷ from_sent r) r.rest
            n4 stop,
        strtoul-spaced r.fifo (r.frame ∷ r.compressed ∷ r.multicast ∷ from_sent r) r.rest n5 stop,
        strtoul-spaced r.frame (r.compressed ∷ r.multicast ∷ from_sent r) r.rest n6 stop,
        skip_multiple_token-spaced (r.compressed ∷ r.multicast ∷ []) (from_sent r) r.rest words
            break,
        strtoul-spaced r.sent_bytes
            (r.sent_packets ∷ r.sent_errs ∷ r.sent_drops ∷ r.sent_fifo ∷ r.colls ∷ r.carrier ∷ [])
            r.rest m1 stop,
        strtoul-spaced r.sent_packets
            (r.sent_errs ∷ r.sent_drops ∷ r.sent_fifo ∷ r.colls ∷ r.carrier ∷ []) r.rest m2 stop,
        strtoul-spaced r.sent_errs (r.sent_drops ∷ r.sent_fifo ∷ r.colls ∷ r.carrier ∷ []) r.rest m3
            stop,
        strtoul-spaced r.sent_drops (r.sent_fifo ∷ r.colls ∷ r.carrier ∷ []) r.rest m4 stop,
        strtoul-spaced r.sent_fifo (r.colls ∷ r.carrier ∷ []) r.rest m5 stop,
        strtoul-spaced r.colls (r.carrier ∷ []) r.rest m6 stop,
        strtoul-spaced r.carrier [] r.rest m7 stop,
      )
      refl

-- The name of a row stops the skipping of white space.
row_name_stop :
    (name rest : Bytes) → IsWord name → drop_while is_space (name ++ rest) ≡ name ++ rest
row_name_stop [] rest (ne, _) = absurd (ne refl)
row_name_stop (c ∷ name) rest (_, (visible, _)) =
    drop_while_stop is_space (c ∷ (name ++ rest)) visible

of_interface-row_line :
    (wanted : Bytes) (r : Row)
    → IsRow r
    → of_interface wanted (row_line r)
      ≡ (if str_eq r.name wanted then some (spaced (columns r) r.rest) else none)
unfolding of_interface after_name row_line
of_interface-row_line wanted r (pad, word, no_colon, _, _, _) =
    let text = spaced (columns r) r.rest in
    let start : drop_while is_space (r.pad ++ (r.name ++ b':' ∷ text)) ≡ r.name ++ b':' ∷ text =
      drop_while-append is_space r.pad (r.name ++ b':' ∷ text) pad
      ∙ row_name_stop r.name (b':' ∷ text) word in
    let cut : length (r.name ++ b':' ∷ text) - length (b':' ∷ text) ≡ length r.name =
      omega (arith, length-append r.name (b':' ∷ text)) in
    rw (start, strchr-append b':' r.name text no_colon, cut, take-append r.name (b':' ∷ text)) refl

-- The status and the counts from that row; ENXIO, and nothing written, without one.
pub report : Option Row → InterfaceStat → ℕ × InterfaceStat
report none ifstat = (enxio, ifstat)
report (some r) ifstat = (sysm_ok, traffic_of r)

find_traffic-row_lines :
    (wanted : Bytes) (rows : List Row) (ifstat : InterfaceStat)
    → All IsRow rows
    → find_traffic wanted (row_lines rows) ifstat ≡ report (first_row wanted rows) ifstat
unfolding find_traffic row_lines first_row traffic_or report
find_traffic-row_lines wanted [] ifstat h = refl
find_traffic-row_lines wanted (r ∷ rows) ifstat (h, hs) =
    let (_, _, _, numbers, words, ends) = h in
    let line = of_interface-row_line wanted r h in
    let later = find_traffic-row_lines wanted rows ifstat hs in
    elim (Bool-cases (str_eq r.name wanted)) [
      | inl e ↦ rw (line, e, read_traffic-columns r numbers words ends) refl
      | inr e ↦ rw (line, e, later) refl
    ]

-- From the two header lines and rows of numbers of 64 bits, each behind one space,
-- `sysm_net_interface_stat_get` takes the counts of the first row of the interface, each from its
-- column, and the speed -1; it answers ENXIO and writes nothing where no row is of the interface.
pub net_interface_stat_get-rows :
    (head1 head2 wanted : Bytes) (rows : List Row) (ifstat : InterfaceStat)
    → All IsRow rows
    → net_interface_stat_get (inr (head1 ∷ head2 ∷ row_lines rows)) wanted ifstat
      ≡ report (first_row wanted rows) ifstat
unfolding net_interface_stat_get
net_interface_stat_get-rows head1 head2 wanted rows ifstat h =
    find_traffic-row_lines wanted rows ifstat h
