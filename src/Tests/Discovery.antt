-- ===== src/Tests/Discovery.antt =====
-- The theorems on devices, listeners and the poller, on a concrete system.
use rdma_on_asio.Base.{
  ℕ, zero, suc, ◌≡◌, refl, true, false, none, some, List, [], ◌∷◌, arith, take, drop, All, ◌==◌,
}
use rdma_on_asio.Base.Int.{pos}
use rdma_on_asio.Error.{cleared}
use rdma_on_asio.Config.{DeviceAttr, default_config}
use rdma_on_asio.Cm.{Env, connect_request}
use rdma_on_asio.Completion.{Wc, success, wc_recv, resolve_all}
use rdma_on_asio.Completion.Poller.{Poller, stopped, turns, ensure_poller_started}
use rdma_on_asio.Completion.Poller.Backlog.{Feeds}
use rdma_on_asio.Completion.Poller.Draining.{Idle, turns-ensure_poller_started}
use rdma_on_asio.Devices.{System, Device, inet, get_devices}
use rdma_on_asio.Devices.Discovery.{Discovered, get_devices-Discovered}
use rdma_on_asio.Devices.Registration.{VerbsEnv, Services, use_device}
use rdma_on_asio.Devices.Registration.Registered.{IsRegistered, Ends, use_device-IsRegistered}
use rdma_on_asio.Listener.{RequestRun}
use rdma_on_asio.Service.{Node, created, base_shutdown}
use rdma_on_asio.Service.Shutdown.{
  Change, constructed, moved, destroyed, run_changes, base_shutdown-run_changes,
}
use rdma_on_asio.Tests.{verbs_op, value_of, event_of}

abbrev caps : DeviceAttr
caps = record {
  max_cqe = pos 1000;
  max_qp_wr = pos 64;
  max_sge = pos 2;
  max_qp_rd_atom = pos 16;
  max_qp_init_rd_atom = pos 16;
}

-- One device, and one interface whose IPv4 address binds to it.
abbrev sys : System
sys = record {
  alloc_pd = λ c. some 1;
  query_device = λ c. (pos 0, caps);
  errno = λ c. pos 12;
  contexts = some (some 5 ∷ none ∷ []);
  getifaddrs = (
    pos 0,
    pos 0,
    record {
      addr = some (record { family = inet; address = 77 });
      is_up = true;
      is_loopback = false;
    }
        ∷ [],
  );
  create_id = λ s. pos 0;
  bind_addr = λ s. pos 0;
  verbs = λ s. some 5;
}

get_devices-Discovered_example : Discovered sys (get_devices sys)
get_devices-Discovered_example = get_devices-Discovered sys

abbrev pub dev : Device
dev = record { context = 5; pd = 1; attr = caps; v4_address = none; v6_address = none }

abbrev fresh : Services
fresh = record {
  device = none;
  effective_config = default_config;
  registered = false;
  comp_channel = none;
  cq = none;
  poll_batch = 16;
}

fresh-IsRegistered : IsRegistered fresh
fresh-IsRegistered = record {
  device_fits = λ d e. ground arith;
  has_device = λ t. ground arith;
  has_cq = λ t. ground arith;
}

-- Every creation returns 7, every other call 0.
abbrev pub verbs_env : VerbsEnv
verbs_env log c = record { value = pos 7; errno = pos 12 }

use_device-IsRegistered_example :
    let ((s', ec), log') = use_device verbs_env (some dev) default_config fresh [] in
    IsRegistered s' × Ends (some dev) default_config fresh s' ec
use_device-IsRegistered_example =
    use_device-IsRegistered verbs_env (some dev) default_config fresh [] (λ log c e. refl)
      fresh-IsRegistered

-- Three completions, two at a time.
abbrev received : Wc
received = record { wr_id = 77; status = success; opcode = wc_recv; byte_len = 50 }

abbrev backlog : ℕ → List Wc
backlog zero = received ∷ received ∷ received ∷ []
backlog (suc zero) = received ∷ []
backlog (suc (suc n)) = []

feeds : Feeds (λ n batch. some (take batch (backlog n))) 2 backlog
feeds = record { answers = λ n. refl; shrinks = shrinking; named = naming }
  where
    shrinking : (n : ℕ) → backlog (suc n) ≡ drop 2 (backlog n)
    shrinking zero = refl
    shrinking (suc zero) = refl
    shrinking (suc (suc n)) = refl

    naming : (n : ℕ) → All (λ wc. (wc.wr_id == 0) ≡ false) (backlog n)
    naming zero = (refl, (refl, (refl, tt)))
    naming (suc zero) = (refl, tt)
    naming (suc (suc n)) = tt

abbrev poller : Poller
poller = record {
  poller_started = false;
  waiting = stopped;
  polls = 0;
  notifies = 0;
  completed = [];
  dispatched = [];
  destroyed = [];
}

turns-ensure_poller_started_example :
    Idle
      (λ n batch. some (take batch (backlog n)))
      (λ a. verbs_op)
      2
      backlog
      feeds
      (resolve_all (λ a. verbs_op) (backlog 0))
      (turns
        (λ n batch. some (take batch (backlog n)))
        (λ a. verbs_op)
        2
        3
        (ensure_poller_started (λ n batch. some (take batch (backlog n))) (λ a. verbs_op) 2 poller))
unfolding resolve_all
turns-ensure_poller_started_example =
    turns-ensure_poller_started (λ n batch. some (take batch (backlog n))) (λ a. verbs_op) 2 backlog
      feeds 3 poller (omega arith) refl refl (omega arith)

-- A CONNECT_REQUEST is reported; every other call succeeds.
abbrev requesting : Env
requesting = record {
  answer = λ log c. record { value = value_of log c; errno = pos 11 };
  next_event = λ log. event_of connect_request;
}

abbrev waiting : RequestRun
waiting = record { ec = cleared; channel = 7; handle = (none, none); private_data = []; log = [] }

-- Two connectors are constructed, a third is moved from the first, and the first is destroyed.
abbrev owners : List Change
owners = constructed 5 ∷ constructed 9 ∷ moved 7 5 ∷ destroyed 5 ∷ []

abbrev blank : ℕ → Node
blank a = record { next = some a; prev = none }

base_shutdown-run_changes_example :
    base_shutdown 3 (run_changes owners (created blank)) ≡ some (7 ∷ 9 ∷ [])
base_shutdown-run_changes_example =
    base_shutdown-run_changes blank owners 3 (tt, ((refl, tt), ((refl, (refl, tt)), (refl, tt))))
      (omega arith)
