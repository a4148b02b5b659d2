-- ===== src/Tests/InputRuns.antt =====
-- Interfaces, logins, name servers and CPU models on concrete inputs.
use jni_demo_system_monitor.Base.{
  ◌≡◌, ◌≤◌, refl, inr, List, [], ◌∷◌, some, Bytes, codes, length, arith, sysm_ok, false,
}
use jni_demo_system_monitor.CpuInfo.Model.Fitted.{cpu_model_adjust-bound}
use jni_demo_system_monitor.CpuInfo.Model.{CpuInfo, cpu_model_adjust}
use jni_demo_system_monitor.GrowList.{GrowList, items}
use jni_demo_system_monitor.Interface.Conf.{Conf, null}
use jni_demo_system_monitor.Route.Info.Servers.{server_lines, with_servers, read_servers-first_two}
use jni_demo_system_monitor.Route.Info.{read_servers, no_info}
use jni_demo_system_monitor.Text.{is_space}
use jni_demo_system_monitor.Who.Listed.{logins, who_list_get-logins}
use jni_demo_system_monitor.Who.{Utmp, Who, who_list_get}

-- Before the first call.
abbrev no_conf : Conf
no_conf = record { buf = null; len = 0; socket_open = false }

-- A boot record, a login, and a terminal that nobody uses.
abbrev records : List Utmp
records =
    record { kind = 2; user = codes "reboot"; line = codes "~"; host = []; time = 1 }
    ∷ record { kind = 7; user = codes "eve"; line = codes "tty1"; host = codes "here"; time = 2 }
    ∷ record { kind = 7; user = []; line = codes "tty2"; host = []; time = 3 }
    ∷ []

who_list_get-logins_example :
    (l : GrowList Who) × (who_list_get (inr records) ≡ some (sysm_ok, l))
    × (items l ≡ logins records)
who_list_get-logins_example = who_list_get-logins records (
  (omega arith, omega arith, omega arith),
  ((omega arith, omega arith, omega arith), ((omega arith, omega arith, omega arith), tt)),
)

abbrev servers : List Bytes
servers = codes "1.1.1.1" ∷ codes "8.8.8.8" ∷ codes "9.9.9.9" ∷ []

read_servers-first_two_example :
    read_servers (server_lines servers) no_info ≡ some (with_servers servers)
unfolding is_space
read_servers-first_two_example =
    read_servers-first_two servers
      ((refl, omega arith), ((refl, omega arith), ((refl, omega arith), tt)))

abbrev intel : CpuInfo
intel = record {
  vendor = codes "Intel";
  model = codes " Intel(R) Xeon(R) CPU  ";
  mhz = 0;
  mhz_max = 0;
  mhz_min = 0;
  cache_size = 0;
  total_sockets = 1;
  total_cores = 1;
  cores_per_socket = 1;
}

cpu_model_adjust-bound_example :
    (after : CpuInfo) × (cpu_model_adjust intel ≡ some after)
    × (length after.model ≤ length intel.model)
    × (after ≡ record intel { model = after.model })
cpu_model_adjust-bound_example =
    cpu_model_adjust-bound intel (codes " ") (codes "ntel(R) Xeon(R) CPU  ") b'I' refl refl
