-- ===== src/Lib.antt =====
-- P2SER, an orchestrator of containers: the dashboard (ui/src/App.jsx) and the parts of the server
-- (backend/internal, in Go) that keep the state of the cluster. The page sends manifests and
-- commands to the server, whose nodes agree by Raft on a log of commands.
--
-- The page has six parts:
--
-- * the Compose → P2SER converter. `Converter.Interpolate`, `Converter.EnvText` and
--   `Converter.Convert` are the functions `interpolate`, `parseEnvText` and `convertCompose`,
--   which take a parsed compose file, settings and the env map to a manifest;
--   `Converter.Convert.Service` is the first loop of `convertCompose` and
--   `Converter.Convert.Volumes` the second. `Converter.Highlight` is `highlightYaml`;
--   `Converter.Files` the choice among dropped files, and the name of a download;
--   `Converter.Session` the state of the component `ComposeConverter`, one `Event` for each of its
--   handlers and for each answer that it waits for, and `output_of`, the effect that regenerates
--   the manifest; `Converter.Badge` the list of removed fields on the card of a service, and
--   `Converter.Card` what the inputs and labels of the page show;
-- * the project dialog. `Projects` is the form and the handler of `Deploy Project`, which sends a
--   git address or an archive of the chosen folder; `Projects.Edits` is its inputs;
-- * the dashboard. `Dashboard` is `fetchData`, the polling of pods and statistics, and the projects
--   grouped from the pods; `Dashboard.View` is the texts that the page writes of them;
-- * the frame. `Shell` is the tabs, the windows over them, and the buttons of a pod and of a project;
-- * the terminal. `Terminal` is the component `TerminalWindow`: a ticket, the socket that is opened
--   with it, and the terminal. Its `Run` is the sequences of events that a browser lets come;
-- * the requests. `Api` is the addresses, the saved token and `authFetch`, which the other parts
--   call.
--
-- `Backend` is the server:
--
-- * `Backend.Pod` is the record `Pod` of scheduler/scheduler.go, which all other parts read and
--   write;
-- * `Backend.Store` is cluster/fsm.go, the bucket of encrypted values to which `FSM.Apply` applies
--   the log: its children are `Snapshot` and `Restore`, the cursor loops of `GetAllPods` and
--   `GetAllBots` (`Cursor`), the bucket against a map of plain values (`View`), whole logs
--   (`Replicas`), and the `cas` commands as locks (`Locks`);
-- * `Backend.Scheduler` is scheduler/scheduler.go: a round of `reconcile`, of `reconcileStandby` and
--   of `renewLeases` is the list of the commands that it sends;
-- * `Backend.Agent` is engine/agent.go: a round is the list of what it asks of its machine;
-- * `Backend.Compose` is compose/compose_parser.go, which makes pods of a compose file, and
--   `Backend.Compose.Template` its function `interpolate`;
-- * `Backend.Api` is the handlers of api/api.go that write pods: `HandleApply`, `HandleRestartPod`
--   and the loop of `HandleCompose`; `Backend.Api.Gate` is the way of a request to a handler: the
--   routes of `ServeWithUI` (whose UI has its index.html), `AuthMiddleware` and the tickets of
--   `HandleGetWsTicket`;
--   `Backend.Api.Bots` is the list of clients that are shut out, and `Backend.Api.Pods` what a
--   client asks of pods: their state, their logs, a terminal, the end of one;
--   `Backend.Api.Rate` is the limit on the rate of requests, with the eviction of visitors;
-- * `Backend.Files` is the paths that the API takes from a request: `safeUnzip`, `HandleDirList` and
--   the working directory of `HandleCompose`, with `Clean`, `Join` and `Dir` of path/filepath;
-- * `Backend.EnvFile` is the .env file that `HandleDeployGit` of api/api.go writes and
--   `ParseEnvFile` of builder/builder.go reads, and `Backend.GitUrl` the function `validateGitURL`
--   of api/api.go;
-- * `Backend.Volume` is `resolveVolumeSrc` of engine/containerd.go, the paths that the volumes of a
--   pod stand for;
-- * `Backend.Gossip` is `NotifyMsg` of network/delegate.go with the metrics of network/network.go;
-- * `Backend.Sanctions` is `BanIP` and `ApplyGeoIPSanctions` of network/network.go, from the country
--   codes in lower case to the swap of the sets;
-- * `Backend.Dns` is `handleRequest` of dns/server.go.
--
-- The scheduler and the API send a `Command`; a log of these, each with the nonce that its value is
-- sealed with, is run by `Backend.Store.Replicas.run`. So a theorem on a race is one on the orders
-- of the commands in a log.
--
-- A string of the page is the list of its UTF-16 code units, one of the server the list of its
-- bytes (`Text`); where a theorem is about both sides, `CharEncoding` of
-- `Converter.Interpolate.Encoded` says how each writes the characters. A plain object is a list of
-- keys and values in the order of `Object.keys` (`Dict`, `Json.Fields`), without the numeric keys,
-- which the engine moves to the front. `Json` is the values that JSON writes, with the property
-- access, assignment and deletion of the language on them. The rest are parameters, since their
-- code is not in the repository. `Json.Platform` is the JavaScript engine: its floating-point
-- numbers, `String` and `parseInt` on them, and the names that every object inherits. `Services`
-- of `Converter.Session` is js-yaml (`load`, `dump`) and the texts of the engine's errors, and
-- `output_of` is given the time of its run; `compose_headers` takes the encoding of the
-- environment. An archive is the entries that are put into `JSZip`. On the server, `Bolt` is bbolt
-- with its cursor in the order of the keys, `Gcm` the sealing of AES-GCM, `Encoding` what
-- `json.Unmarshal` reads and `Engine` what `json.Marshal` writes for a pod, with the numbers
-- `float64`; `Machine` is containerd and the network that the probes use; the clock, the random
-- numbers and the generated passwords are inputs. A theorem names what it needs of them.
--
-- A function that throws gives a `Result`, whose `thrown` carries the fault. A component that waits
-- for a reader or a request is a step function on events, which come in any order. All recursion is
-- structural but that of `interpolate`, which is on fuel: the length of the text, which is enough
-- because each match takes a unit at least (`Converter.Interpolate.Fuel`).
--
-- A version of a pod is a word of 64 bits; a lease is 0 where the source has a number that is not
-- positive. A map of Go is a list in the order in which `range` goes through it.
--
-- What comes from other libraries or from the machine is an argument there as well: the tables of
-- capitals of `strings.ToLower`, `url.Parse`, the look-up of a host, `rand.Intn`, which calls of
-- the file system work, the ends of an address, the sets of ipset (`IpSet`), and the limiters of
-- golang.org/x/time/rate (`RateLib`), whose times are milliseconds. The strings of
-- `Backend.EnvFile` are lists of characters, since `strings.TrimSpace` reads these.
--
-- Not modelled: the markup and styles of the pages, and what xterm.js draws. Of the server: the
-- set-up of Raft, whose log is taken as agreed; the log lines; `HandleStats` and `HandleNodes`; the
-- copying of bytes between the web sockets of a terminal; the rules of iptables, the routes and
-- tunnels, containerd, CNI, the runs of the builder and systemd, whose code calls libraries and the
-- operating system.
mod Base
pub mod Text
pub mod Dict
pub mod Json
pub mod Api
pub mod Converter
pub mod Shell
pub mod Terminal
pub mod Backend
pub mod Dashboard
pub mod Projects
mod Tests
