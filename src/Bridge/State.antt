-- ===== src/Bridge/State.antt =====
-- internal/bridge/bridge.go: the state of the bridge and what the user interface sees of it. What it
-- holds of the client is the outbound buffer, which stands beside it. The map of printers is listed
-- in any order by Go, in the order of their first connection here.
use brother_connect.Base.{Bool, true, false, String, List, [], map, insert, delete}
use brother_connect.Bridge.Records.{JobRecord}
use brother_connect.Printer.Types.{Printer}
use brother_connect.Protocol.{version}
use brother_connect.Queue.Submit.{Queue, new_queue}
use brother_connect.Queue.Dedup.{default_retention}
use brother_connect.Transport.Client.{Config}

-- The settings of `config.Config` that the bridge reads.
pub record Settings : Type 0 where
  pub server_url : String
  pub tenant_name : String
  pub installation_id : String
  pub bridge_version : String
  pub has_heartbeat : Bool

-- `type Bridge struct`, with the printers that were registered with the driver.
pub record Bridge (W : Type 0) : Type 0 where
  pub queue : Queue W
  pub is_connected : Bool
  pub printers : List (String × Printer)
  pub jobs : List JobRecord
  pub registered : List Printer

-- `New`: the bridge, over the world of its queue.
unfoldable pub new_bridge : {W : Type 0} → W → Bridge W
new_bridge world = record {
  queue = new_queue world default_retention;
  is_connected = false;
  printers = [];
  jobs = [];
  registered = [];
}

-- The configuration of the client that `New` makes.
unfoldable pub client_config : Settings → Config
client_config s = record {
  hello = record {
    protocol_version = version;
    installation_id = s.installation_id;
    bridge_version = s.bridge_version;
  };
  has_heartbeat = s.has_heartbeat;
}

-- `type Snapshot struct`
pub record Snapshot : Type 0 where
  pub connected_now : Bool
  pub server : String
  pub tenant : String
  pub installation : String
  pub bridge_version : String
  pub known_printers : List Printer
  pub recent_jobs : List JobRecord

-- `Snapshot`
unfoldable pub snapshot : {W : Type 0} → Settings → Bridge W → Snapshot
snapshot s b = record {
  connected_now = b.is_connected;
  server = s.server_url;
  tenant = s.tenant_name;
  installation = s.installation_id;
  bridge_version = s.bridge_version;
  known_printers = map (λ (entry : String × Printer). entry.1) b.printers;
  recent_jobs = b.jobs;
}

-- `setConnected`
abbrev pub set_connected : {W : Type 0} → Bool → Bridge W → Bridge W
set_connected connected b = record b { is_connected = connected }

-- `recordPrinter`
unfoldable pub record_printer : {W : Type 0} → Printer → Bool → Bridge W → Bridge W
record_printer p true b = record b { printers = delete p.id b.printers }
record_printer p false b = record b { printers = insert p.id p b.printers }
