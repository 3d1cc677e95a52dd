-- ===== src/Config/Types.antt =====
-- The configuration records of include/e3_config.h, with their defaults. A float is its IEEE-754
-- bit pattern, and a string is the library's.
use Prim.Native.String.{String}
use e3controller.Common.{ℕ, ◌^◌, ℤ, pos, negsuc, Bool, ◌&&◌, ltb, leb}
use e3controller.Config.Geometry.{RadioGeometry, default_geometry}

pub data ShmWriter : Type 0 where
  controller gnb : ShmWriter

-- `w == ShmWriter::Controller`
abbrev pub is_controller : ShmWriter → Bool
is_controller ShmWriter.controller = Bool.true
is_controller ShmWriter.gnb = Bool.false

unfoldable pub to_string : ShmWriter → String
to_string ShmWriter.gnb = "gnb"
to_string ShmWriter.controller = "controller"

-- The values of libe3's enumerations that the controller uses.
pub data EncodingFormat : Type 0 where
  asn1 json : EncodingFormat

pub data LinkLayer : Type 0 where
  zmq posix : LinkLayer

pub data TransportLayer : Type 0 where
  tcp ipc sctp : TransportLayer

pub record ShmConfig : Type 0 where
  pub name : String
  pub size_bytes : ℕ
  pub writer : ShmWriter
  pub cbf16_scale : ℕ

pub record JbpfConfig : Type 0 where
  pub ipc_name : String
  pub run_path : String
  pub mem_size_bytes : ℕ
  pub lcm_socket_path : String
  pub codelet_base_path : String

pub record E3Config : Type 0 where
  pub encoding : EncodingFormat
  pub link_layer : LinkLayer
  pub transport : TransportLayer
  pub setup_port : ℕ
  pub publisher_port : ℕ
  pub subscriber_port : ℕ

pub record ThreadConfig : Type 0 where
  pub poll_core : ℤ
  pub worker_core : ℤ
  pub publisher_core : ℤ
  pub poll_interval_us : ℤ

pub record LoggingConfig : Type 0 where
  pub drops_log_path : String
  pub spectrum_stats_log_path : String
  pub latrec_dir : String

pub record ControllerConfig : Type 0 where
  pub radio : RadioGeometry
  pub shm : ShmConfig
  pub jbpf : JbpfConfig
  pub e3 : E3Config
  pub threads : ThreadConfig
  pub logging : LoggingConfig
  pub target_slot : ℤ

-- The float 1.0f.
abbrev pub float_one : ℕ
float_one = 0x3f80_0000

-- `f > 0.0f`: the sign is clear, and the pattern is neither zero nor that of a NaN.
unfoldable pub float_positive : ℕ → Bool
float_positive f = ltb 0 f && leb f 0x7f80_0000

abbrev pub default_config : ControllerConfig
default_config = record {
  radio = default_geometry;
  shm = record {
    name = "/e3_ran_buffers";
    size_bytes = 2 ^ 30;
    writer = ShmWriter.gnb;
    cbf16_scale = float_one;
  };
  jbpf = record {
    ipc_name = "e3_controller";
    run_path = "/dev/shm";
    mem_size_bytes = 2 ^ 30;
    lcm_socket_path = "/tmp/jbpf/jbpf_lcm_ipc";
    codelet_base_path = "";
  };
  e3 = record {
    encoding = asn1;
    link_layer = zmq;
    transport = tcp;
    setup_port = 9990;
    publisher_port = 9991;
    subscriber_port = 9999;
  };
  threads = record {
    poll_core = negsuc 0;
    worker_core = negsuc 0;
    publisher_core = negsuc 0;
    poll_interval_us = pos 100;
  };
  logging = record { drops_log_path = ""; spectrum_stats_log_path = ""; latrec_dir = "" };
  target_slot = negsuc 0;
}
