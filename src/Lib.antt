-- ===== src/Lib.antt =====
-- A model of qemu-snapshot-web-manager, the web interface for snapshots of virtual machines.
--
-- The program is an HTTP server (src/server.c) whose routes (src/routes.c) act on a backend
-- (src/libvirt_backend.c or src/utm_backend.c behind src/vm_backend.h), keep track of which
-- machines have run since their last snapshot (src/dirty_state.c), build a tree of snapshots
-- (src/snapshot.c) and send pages (src/html_render.c). Its settings come from INI files
-- (src/config.c); src/util.c has the helpers for texts.
--
-- The files and the code they follow:
-- In Prelude: the parts of the standard library that are used, Boolean tests and lists over the
--   native numbers (Tests, Lists), `str*` functions on texts (Text), the integers (Int).
-- In Util: src/util.c and the encoders of src/html_render.c. Url: `url_decode`, `url_encode`. Path:
--   `path_segment`. Base64: `base64_decode`. Escape: `json_escape`, `html_escape`.
-- In Json: the JSON values that pass through jansson.
-- In Snapshot: src/snapshot.c. The parent has the operations; Search is about `snapshot_tree_find`,
--   `snapshot_tree_count` and `snapshot_tree_free`, CurrentState, Attach and Wide about
--   `snapshot_tree_add_current_state`, Export has `snapshot_tree_to_json`.
-- In VmState: the enumeration of src/vm_backend.h.
-- In DirtyState: src/dirty_state.c. Table has the rows, Disk the file; WellFormed, Lookup, Observe
--   and Persist have the lemmas, Refine a map from names to flags as its specification.
-- In Config: src/config.c. Dropins has `config_load_dropins`.
-- In Libvirt: src/libvirt_backend.c. Xml builds the XML of snapshots and takes it apart, Listing
--   has the links of `lv_list_snapshots`, Tree below it the nodes that they lead to, Table the
--   calls that it makes and the table of operations, Disks `get_domain_disk_paths`, Orphans the
--   scan for orphaned snapshots and their cleanup. Session has the connection, its lock and the
--   life cycle of machines, Changes the operations that change snapshots, Nvram the conversion of
--   the NVRAM, Folders the shared folders. Guest runs a command in the guest: Mounts mounts folders
--   there, Os finds out its operating system, Automount installs the service. Reach, Single,
--   Occurs, Trail, Below, Whole, Lock, Errors, Fuel, Polls, Lines and Told have the lemmas on them.
-- In Start: `main` of src/main.c; Port is about its port and the daemon that it leaves.
-- In Server: src/server.c. Daemon starts and stops the daemon of libmicrohttpd. Static has the
--   lemmas on static files, Idle those on the idle time and on the calls of one request.
-- In Backend: the table of operations of src/vm_backend.h, as a record of calls.
-- In Routes: src/routes.c. The parent has the responses and what the handlers share; Body is the
--   buffer of a request body, Form has `form_value`, Dispatch `route_dispatch`. The handlers are in
--   Lifecycle (machines, NVRAM, orphans), Snapshots (tree, detail, create), Changes (edit, delete,
--   revert, merge), Folders (shared folders) and Browse (directories); Fields, Bounds, Sorted,
--   Paths, Upload and Clean have the lemmas.
-- In Html: src/html_render.c. The parent has the string builder, Builder the lemmas on it. Pages
--   has the messages, the warning of orphaned snapshots and the list of directories, Machines the
--   list of machines and the detail of a snapshot, Folders the shared folders, Forms the forms and
--   the help; the last three are lists of calls of the builder (Template). Markup is about the tags
--   of these pages.
-- In Utm: src/utm_backend.c. Lines takes the output of `utmctl` apart, Folders has the shared
--   folders, Table the table of operations; Listing has the lemmas on the list of machines.
-- In Tests: concrete inputs.
--
-- A text is a list of bytes without its final NUL, and a text of the source holds no NUL; a NULL
-- pointer is `none`. `snprintf` into an array of n bytes keeps the first n - 1 bytes. `malloc`
-- always succeeds, so that its error paths are left out. Memory is modelled as values: a tree of
-- snapshots is a value, and a pointer into it is the path of child indices that leads to the node.
-- The static variables of src/dirty_state.c are a state that each operation takes and returns, its
-- file is a second one, and each call into the file system has its outcome as a parameter, so that
-- every error path can be taken. libvirt, `qemu-img`, the clock and the files that are served are
-- parameters in the same way. jansson is three functions: one writes and one reads a
-- document, and one says which texts it takes.
--
-- A handler of src/routes.c is a function from the state before to the response with the state
-- after. That state is the hypervisor, of any type, the table of src/dirty_state.c and its file. The
-- hypervisor is reached only through the calls of the backend and of src/libvirt_backend.h, which
-- enter as two records of functions on it.
--
-- The nodes of `lv_list_snapshots` refer to each other through pointers while they are linked:
-- there a node is its index in the array, and the links are a function from an index to the indices
-- of its children.
--
-- Loops that are not over a list run on fuel: the search for the current snapshot has one round for
-- each node and one more, and each round takes a node off the stack that is never put back;
-- `path_segment` and `config_parse_buffer` have one round for each byte and one more, and each
-- round takes at least one byte; the loops over the elements of an XML text and over the
-- output of `qemu-img` are counted the same way, and the files Fuel are about them; the search of
-- `form_value` takes the key in each round. `guest_exec` asks ten times, as the source does, and the
-- loop over the lines of `findmnt` has one round for each byte and one more. The tree of nodes behind
-- the links of `lv_list_snapshots` has fuel for as many levels as there are snapshots.
--
-- Not modelled: logging and `str_fmt`, which only format text for the log and the pages of the routes
-- that are named by their template.
pub mod Prelude
pub mod Util
pub mod Json
pub mod Snapshot
pub mod VmState
pub mod DirtyState
pub mod Config
pub mod Libvirt
pub mod Server
pub mod Backend
pub mod Routes
pub mod Utm
pub mod Start
pub mod Html
mod Tests
