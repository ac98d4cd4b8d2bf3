-- ===== src/Lib.antt =====
-- A model of the netbird client, go/ of this repository: how the engine keeps its peers in step
-- with the network map of the management server, how the client sets up the routing of Linux, and
-- how it configures the WireGuard device.
--
-- The parts and their files:
--   Common       the shared names: Boolean tests, lists, dictionaries, multisets of texts, and
--                Outcome, the result of a Go function that returns, fails or panics.
--   Engine       go/internal/engine.go. Peers models removePeers, modifyPeers and addNewPeers with
--                what they call, and apply_peers is their sequence in updateNetworkMap; NetIpLists
--                models compareNetIPLists, NatMappings parseNATExternalIPMappings, DnsForwarder
--                updateDNSForwarder and LazyPeers toExcludedLazyPeers. NetworkMaps models
--                handleSync, updateConfig and updateNetworkMap, and uses Servers (updateSTUNs,
--                updateTURNs, the relay and flow configuration), Checks (updateChecksIfNew), Convert
--                (toRoutes, toRouteDomains, toDNSConfig, updateOfflinePeers) and ForwardRules
--                (updateForwardRules); Persistence models SetSyncResponsePersistence and
--                GetLatestSyncResponse, and Shutdown calculateShutdownTimeout; Signals models
--                convertToOfferAnswer and the handler of receiveSignalEvents, and Stopping Stop with
--                close and stopDNSServer, and what asks for the interface meanwhile; Health models RunHealthProbes
--                and triggerClientRestart. SyncState holds the
--                fields of Engine that these methods use, Messages the messages of the management
--                service, Converted what is made of them.
--                The peer store, the connections, the status recorder and rand.Intn are the record
--                PeerEnv, with their documented behaviour in PeerLaws; the other parts of the
--                client are the records SyncEnv and StopEnv; net/netip is Netip. The locks of these
--                functions are left out: the engine runs them with its mutex held, so they run one after the
--                other. A method of a nil connection manager, DNS server or interface panics.
--   RouteManager go/internal/routemanager/manager.go. Classify models ClassifyRoutes, ExitNodes the
--                choice of exit nodes by the management server, and Networks the state of the
--                manager with updateSystemRoutes, updateClientNetworks, UpdateRoutes and
--                TriggerSelection; Networks/InStep has whole runs of these. Lifecycle models Init,
--                SetFirewall and Stop over the interface SysOps, which Lifecycle/Linux fills from
--                SystemOps. Routes, the selector, handlers and watchers are the record RouteEnv;
--                starting a watcher stands for the goroutine that runs it.
--   Signal       go/signal/client. Messages has the messages of the service, Credentials models
--                MarshalCredential and UnMarshalCredential, Client models encryption, Ready,
--                IsHealthy and Send of grpc.go, and Worker the queue of worker.go as a step relation
--                in which AddMsg and Work interleave. The keys, the encryption and the connection
--                are the record SignalEnv. Send makes at most four attempts.
--   Configurer   go/iface/configurer. Kernel models kernel_unix.go over the client of wgctrl,
--                KernelEnv; the other modules model usp.go. Status models parseStatus, Transfers models
--                parseTransfers, Config models toWgUserspaceString, and Device the operations of
--                WGUSPConfigurer over IpcGet and IpcSet. Texts are cut and trimmed character by
--                character, by Common/Split; the device, the keys, the networks and the conversions
--                of numbers are the record WgEnv, and WgLaws says that what is printed is read back.
--   Iface        go/iface/iface.go: the operations of WGIface over a configurer that may be nil, and
--                Close with waitUntilRemoved, whose loop runs on fuel: it sleeps a tenth of a second
--                in each round and its timer ends after five seconds, so that 51 are enough.
--   SystemOps    go/internal/routemanager/systemops/systemops_linux.go, with validateRoute and the
--                types of systemops.go beside it. Rules models SetupRouting and CleanupRouting,
--                Routes models AddVPNRoute and RemoveVPNRoute, Tables and Details the listings,
--                Names the names of numbers, RtTables the entry in /etc/iproute2/rt_tables. Netlink,
--                sysctl and the legacy routing are the record Kernel, net/netip is Netip, a listing
--                is Listing and the file is Files; RuleLaws, RouteLaws and FileLaws state what the
--                kernel and the file system document.
--
-- How the model stands to the code: a function of Go is a function of the same name in snake case
-- that takes the world and returns its result and the new world. An error is a value of SysError,
-- PeerError, SyncError, StopError, SignalError, SendError, WgError or KernelError, or `none` where
-- there is only one; a panic is the third case of Outcome. Loops over slices are structural
-- recursion; only waitUntilRemoved has fuel. A map with Boolean values is the list of its keys.
-- Log messages, and the texts of errors beyond what tells them apart, are left out.
--
-- Not modelled: the start of the engine and the connect loop (goroutines and contexts), the
-- constructor of the route manager, the stream of the signal client under backoff (grpc), the UAPI
-- listener of the userspace configurer, the WireGuard devices, the gRPC and REST clients,
-- generated code, the commands, and the C client.
pub mod Common
pub mod Engine
pub mod SystemOps
pub mod RouteManager
pub mod Configurer
pub mod Signal
pub mod Iface
