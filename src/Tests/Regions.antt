-- ===== src/Tests/Regions.antt =====
-- The theorems on memory regions and on completion queues of both backends, on concrete devices.
use rdma_on_asio.Base.{refl, none, some, []}
use rdma_on_asio.Base.Int.{pos}
use rdma_on_asio.Error.{cleared}
use rdma_on_asio.Config.{default_config, is_config_compatible, exceeds}
use rdma_on_asio.Nd.Adapter as Adapter
use rdma_on_asio.Memory.{mr_access_remote_read}
use rdma_on_asio.Devices.Regions as Verbs
use rdma_on_asio.Devices.Regions.Lifetime.{Registers}
use rdma_on_asio.Devices.PollQueue as VerbsQueue
use rdma_on_asio.Nd.{Env, region_register}
use rdma_on_asio.Nd.Memory.{NativePd, NdMemoryRegion, register_region}
use rdma_on_asio.Nd.Memory.Lifetime.{Constructed, regions-Constructed}
use rdma_on_asio.Nd.PollQueue.{create_poll_queue}
use rdma_on_asio.Nd.PollQueue.Ready.{Ready, NdReady, create_poll_queues-Ready}
use rdma_on_asio.Tests.Discovery.{dev, verbs_env}
use rdma_on_asio.Tests.Pairs.{adapter}

-- Registering waits, and then succeeds.
abbrev waits : Env
waits = record {
  hr = λ log c. elim c [ region_register mr addr length access ↦ pos 259 | _ ↦ pos 0 ];
  code = λ log c. cleared;
  made = λ log. 9;
  private_data = λ log. (0, []);
}

abbrev domain : NativePd
domain = record { context = 3; sync_handle = 4 }

abbrev moved_from : NdMemoryRegion
moved_from = record {
  mr = none;
  addr = 4096;
  length = 64;
  flag = mr_access_remote_read;
  extra_flag = 0;
}

abbrev empty : Verbs.IbvMemoryRegion
empty = record { mr = none; addr = 4096; length = 64; flag = mr_access_remote_read; extra_flag = 0 }

regions-Constructed_example :
    Registers verbs_env empty []
      (Verbs.register_region verbs_env (some 1) 4096 64 mr_access_remote_read 0 [])
    × Constructed waits moved_from []
        (register_region waits (some domain) 4096 64 mr_access_remote_read 0 [])
regions-Constructed_example =
    regions-Constructed verbs_env waits (some 1) (some domain) 4096 64 mr_access_remote_read 0 empty
      moved_from [] [] (λ log c e. refl)

create_poll_queues-Ready_example :
    Ready dev (VerbsQueue.create_poll_queue verbs_env dev default_config []).0
    × NdReady waits adapter [] (create_poll_queue waits adapter default_config [])
unfolding is_config_compatible exceeds Adapter.is_config_compatible
create_poll_queues-Ready_example =
    create_poll_queues-Ready verbs_env waits dev adapter default_config [] [] (λ log c e. refl) refl
      refl
