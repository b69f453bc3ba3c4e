-- ===== src/Tests/Sample.antt =====
-- A small world to run the program in: one device with two interfaces and one address, and a store of
-- Kubernetes objects that never changes.
use argora.Base.{ℕ, suc, refl, String, true, none, some, List, [], ◌∷◌, pos}
use argora.Errors.{text, Result, ok, err}
use argora.Models.Netbox.{Nested, NestedIpAddress, Device, Interface, IpAddress, Prefix, Listing}
use argora.Models.Kubernetes
use argora.Models.Kubernetes.{
  ObjectMeta, OwnerReference, IpAddressClaim, ServerClaim, Server, Bmc, BareMetalHost,
  GlobalInClusterIpPool,
}
use argora.Api.{Status, unset, Update, ClusterSelector, IpPoolSelector}
use argora.World.{World, Resource, CredentialsJson}
use argora.World.Documented.{attempts, RetriesOnConflict}
use argora.Effect.{Sys}

abbrev pub nested : ℕ → Nested
nested n = record { id = n; slug = "qa-de-1" }

abbrev pub no_address : NestedIpAddress
no_address = record { id = 0; address = "" }

abbrev pub device : Device
device = record {
  id = 7;
  name = "node001";
  status_value = "active";
  platform = nested 1;
  site = nested 2;
  tenant = nested 3;
  device_role = nested 4;
  device_type = record { slug = "r660"; model = "R660"; manufacturer = nested 5 };
  oob_ip = no_address;
  primary_ip = no_address;
  primary_ip4 = no_address;
  tags = [];
}

abbrev pub idrac : Interface
idrac = record { id = 20; name = "iDRAC"; type_value = "1000base-t"; mac_address = "" }

abbrev pub lag1 : Interface
lag1 = record { id = 21; name = "LAG1"; type_value = "lag"; mac_address = "" }

abbrev pub interfaces : List Interface
interfaces = idrac ∷ lag1 ∷ []

abbrev pub address : IpAddress
address = record {
  id = 30;
  address = "10.0.0.5/24";
  dns_name = "node001r";
  assigned_object_id = 21;
  assigned_interface = record { id = 21; device_id = 8 };
}

abbrev pub prefix : Prefix
prefix = record {
  id = 40;
  prefix = "10.0.0.0/24";
  vrf = nested 6;
  vlan = record { id = 41; vid = 100; name = "vlan" };
  site = nested 2;
  role = nested 4;
}

abbrev pub one : {S A : Type 0} → (S → S) → A → S → Result (Listing A) × S
one next a n = (ok (record { count = 1; results = a ∷ [] }), next n)

abbrev pub meta : String → ObjectMeta
meta name = record {
  name = name;
  namespace = "default";
  resource_version = 1;
  labels = none;
  annotations = none;
  finalizers = [];
  owner_references = record { kind = "ServerClaim"; name = "claim" } ∷ [];
  deletion_timestamp = none;
}

abbrev pub ip_address : Kubernetes.IpAddress
ip_address = record {
  meta = meta "address";
  address = "10.0.0.5";
  prefix = some 24;
  claim_ref_name = "claim";
}

abbrev pub status : Status
status = record { state = unset; conditions = none; description = "" }

abbrev pub cluster_selector : ClusterSelector
cluster_selector = record {
  name = "cluster";
  region = "qa-de-1";
  cluster_type = "";
  bmc_credentials_ref = none;
}

abbrev pub update : Update
update = record { meta = meta "update"; clusters = cluster_selector ∷ []; status = status }

abbrev pub pool_selector : IpPoolSelector
pool_selector = record {
  name_prefix = "pool";
  name_override = "";
  region = "QA-DE-1";
  role = "role";
  exclude_mask = some (pos 28);
  excluded_addresses = "10.0.0.20" ∷ [];
  exclude_last_n_addresses = some (pos 2);
}

abbrev pub credentials_json : CredentialsJson
credentials_json = record {
  bmc_user = some "user";
  bmc_password = some "password";
  netbox_token = none;
  error = none;
}

abbrev pub bmc : Bmc
bmc = record {
  meta = meta "node001";
  endpoint_ip = none;
  protocol_name = "Redfish";
  protocol_port = 443;
  secret_ref = "node001";
  hostname = none;
}

abbrev pub host : BareMetalHost
host = record {
  meta = meta "node001";
  architecture = "x86_64";
  automated_cleaning_mode = "disabled";
  online = true;
  bmc_address = "";
  bmc_credentials_name = "";
  bmc_disable_certificate_verification = true;
  boot_mac_address = "";
  network_data = record { namespace = "default"; name = "networkdata-node001" };
  root_device_model = "BOSS";
}

abbrev pub answers : {S Obj : Type 0} → (S → S) → Obj → Resource S Obj
answers next obj = record {
  get = λ key n. (ok obj, next n);
  create = λ o n. (ok o, next n);
  patch = λ base o n. (ok o, next n);
  update_status = λ o n. (ok o, next n);
}

-- The server has no `bmcRef`.
abbrev pub answering : (S : Type 0) → (S → S) → Resource S Update → World
answering S next updates = record {
  State = S;
  Client = ℕ;
  new_client = λ service url token debug. ok 0;
  list_clusters = λ c f. one next (record { id = 1; name = "cluster"; type_slug = "vmware" });
  list_devices = λ c f. one next device;
  list_device_roles = λ c f. one next (record { id = 4; name = "server" });
  list_interfaces = λ c f n. (ok (record { count = 2; results = interfaces }), next n);
  list_platforms = λ c f. one next (record { id = 9; name = "GardenLinux" });
  get_site = λ c id n. (ok (record { id = id; region = nested 1 }), next n);
  get_region = λ c id n. (ok (record { id = id; slug = "qa-de-1" }), next n);
  update_device = λ c d n. (ok device, next n);
  update_interface = λ c i id n. (ok lag1, next n);
  delete_interface = λ c id n. (ok tt, next n);
  list_vlans = λ c f. one next (prefix.vlan);
  list_ip_addresses = λ c f. one next address;
  list_prefixes = λ c f. one next prefix;
  create_ip_address = λ c a n. (ok address, next n);
  update_ip_address = λ c a n. (ok address, next n);
  delete_ip_address = λ c id n. (ok tt, next n);
  list_tags = λ c f. one next (record { id = 50; name = "tag" });
  writeable = λ d. record { id = d.id; platform = 0; oob_ip = 0; primary_ip4 = 0; others = "" };
  updates = updates;
  cluster_imports = answers next (record { meta = meta "import"; clusters = []; status = status });
  ip_pool_imports =
      answers next
        (record { meta = meta "import"; ip_pools = pool_selector ∷ []; status = status });
  ip_addresses = answers next ip_address;
  ip_address_claims = answers next (record { meta = meta "claim" });
  server_claims = answers next (record { meta = meta "claim"; server_ref = some "server" });
  servers = answers next (record { meta = meta "server"; bmc_ref = none });
  bmcs = answers next bmc;
  bmc_secrets = answers next (record { meta = meta "node001"; values = none });
  secrets = answers next (record { meta = meta "secret"; values = none; string_values = none });
  capi_clusters = answers next (record { meta = meta "cluster" });
  bare_metal_hosts = record (answers next host) { get = λ key n. (err (text "not there"), next n) };
  create_or_update_bmc_secret = λ mutate o n. (ok (mutate o), next n);
  create_or_update_secret = λ mutate o n. (ok (mutate o), next n);
  set_owner_of_bmc_secret = λ b o. ok o;
  set_owner_of_secret = λ b o. ok o;
  bmc_secret_username_key = "username";
  bmc_secret_password_key = "password";
  parse_ip = λ t. ok t;
  parse_ipv4_net = λ t. ok (record { netmask = "255.255.255.0"; nth = λ n. ok "10.0.0.1" });
  Float64 = ℕ;
  marshal_network_data = λ d. ok "networks";
  ip_pools = record {
    get = λ key n. (err (text "not there"), next n);
    create = λ o n. (ok o, next n);
    patch = λ base o n. (ok o, next n);
    update_status = λ o n. (ok o, next n);
  };
  add_finalizer = λ m f. (record m { finalizers = f ∷ [] }, true);
  remove_finalizer = λ m f. (record m { finalizers = [] }, true);
  retry_on_conflict = λ S fn s. attempts 4 fn s;
  set_status_condition = λ cs c. c ∷ cs;
  read_file = λ name n. (ok "{}", next n);
  unmarshal_credentials = λ bytes. credentials_json;
  parse_ipv6 = λ t. none;
  print_ipv6 = λ n. "::";
}

abbrev pub world : World
world = answering ℕ suc (answers suc update)

abbrev pub retries : RetriesOnConflict world
retries = record { retries = λ S fn s. refl }

abbrev pub start : Sys world
start = record {
  world = 0;
  credentials = record { bmc_user = "old"; bmc_password = "old"; netbox_token = "token" };
  netbox = record {
    netbox_url = "netbox";
    virtualization = some 0;
    dcim = some 0;
    ipam = some 0;
    extras = some 0;
  };
  calls = [];
}
