-- ===== src/Lib.antt =====
-- argora keeps NetBox, an inventory of data centres, and a Kubernetes cluster in step. It is a set of
-- reconcilers of controller-runtime: each is called with the name of a resource, reads it, and sends
-- writing calls to the two remote systems. The model runs a reconciler as a function from a state to a
-- result and the next state.
--
-- Parts, and where they stand:
-- - Effect.antt: what a method call is. An `Action` takes the outside world, the credentials, which
--   all reconcilers share, the NetBox clients of the reconciler, and the list of the writing calls that
--   were sent; it returns a value or an error, or panics, with the state after it. Effect/Emits,
--   Effect/Returns and Effect/Sends have the rules, one for each way to build an action, that the proofs
--   about calls apply; Effect/Traces has those about the order of the calls, and how it depends on how an
--   action ends.
-- - World.antt: the client libraries (go-netbox-go, controller-runtime, client-go, encoding/json, the
--   YAML encoder and go-netaddr), as parameters. A call of them may change the state of the outside
--   world in any way, so other writers may act between two calls. World/Documented states what their
--   documents say: `RetryOnConflict` with the default of five attempts, and `SetStatusCondition`.
-- - Go.antt: what the program uses of Go's standard library (strings, strconv, regexp, sort, net and
--   net/netip). An IPv4 address is computed; the text forms of IPv6 addresses are parameters. Case
--   folding in `to_lower` and in the patterns is that of ASCII.
-- - Errors.antt: error values with their wrapping chain, and what `errors.Is` and `errors.AsType` find.
-- - Models.antt, Api.antt: NetBox and Kubernetes objects and the custom resources (api/v1alpha1). Only
--   fields that the program reads or writes are there.
-- - Netbox.antt: internal/netbox. Requests has the option functions and `BuildRequest`; Clients has
--   `NetboxService`; Dcim, Ipam, Virtualization and Extras have the methods of the four services.
-- - Credentials.antt: internal/credentials/credentials.go, with the overwriting of the shared object.
-- - Status.antt: internal/status/status.go, whose three handlers are one definition over a `Kind`;
--   Status/Store has the table of statuses that they implement, and what the API server is documented
--   to do while nobody else writes.
-- - Controller/Update.antt: internal/controller/update_controller.go, and Controller/Hostname.antt for
--   `getRemoteboardHostname` of internal/controller/ironcore_controller.go.
-- - Controller/Selected.antt: the walk over the devices of the selected clusters, which the reconcilers of
--   updates and of cluster imports share; Selected/Walked has its order.
-- - Controller/IpUpdate.antt: internal/controller/ipupdate_controller.go. Selection has the choice of
--   the interface and the annotations, Target the way from an address to a device, Address what is done
--   in NetBox, Deletion the way back, Calls the calls that may be sent, Order the order of the calls of a
--   run. The other reconcilers have modules of the same names for the same things, and Completed for what a
--   whole run has done.
-- - Controller/IpPool.antt: internal/controller/ippoolimport_controller.go.
-- - Controller/IronCore.antt: internal/controller/ironcore_controller.go. Secrets has the credentials and
--   the `BMCSecret`, Bmcs the `BMC` with its labels and its owner, Calls the calls that may be sent.
-- - Controller/Metal3.antt: internal/controller/metal3_controller.go. Hints has the tables and what is
--   read off a device, Mac the choice of the MAC address, Network the secret with the network data, Calls
--   the calls that may be sent.
-- - NetworkData.antt: internal/networkdata/networkdata.go, the types of the network data.
-- - Manager.antt: cmd/manager/main.go, the flags and the requests to the libraries that start the
--   controllers. Manager/SettingUp has `SetupWithManager` of the five reconcilers, and the record of
--   internal/controller/rate_limiter.go; Manager/Following has what it is to follow a plan of requests.
-- - Controller/System.antt: the program that runs, made of the reconcilers that `main` sets up, as a step
--   relation. A step is a whole run of one reconciler for any request, or any change of the outside
--   world. Runs of two reconcilers do not overlap in it: what others do to the two remote systems during
--   a run is in the state of the outside world, but the shared credentials change between runs only.
-- - Tests.antt: the theorems at work in a small world.
--
-- Loops over slices are recursion on the list, and the one loop with a count (`getLastNIPs`) is recursion
-- on the rounds that are left, so no fuel is needed. The ids of NetBox are natural numbers; the Go `int`
-- is 64 bits wide, and where an id is printed and read back its bound is a hypothesis.
--
-- Not modelled: logging; the constructors of the reconcilers and the registration of schemes, which only
-- pass objects on; contexts and their cancellation; the JSON functions of internal/networkdata, which
-- nothing calls; generated deep copies; mocks and test utilities.
pub mod Base
pub mod Go
pub mod Errors
pub mod Models
pub mod NetworkData
pub mod Manager
pub mod Api
pub mod World
pub mod Effect
pub mod Netbox
pub mod Credentials
pub mod Status
pub mod Controller
pub mod Tests
