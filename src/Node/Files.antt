-- ===== src/Node/Files.antt =====
-- node/file.go: the graph in its file. The calls of os and of encoding/json are a parameter: `T` is what an
-- opened file reads, and `L` has the files.
pub mod Renames
pub mod Safe
pub mod Loaded
pub mod Fixture
pub mod Roundtrip
mod Examples
use Prim.Native.String.{◌++◌ as str_append}
use circular.Prelude.{
  ℕ, String, Bool, true, false, Option, none, some, List, [], ◌∷◌, Map, insert, if◌then◌else◌, not,
}
use circular.Errors.{Error, Result, ok, err, ◌>>=◌, no_graph_to_load, panic}
use circular.Graph.Channel.{Channel}
use circular.Graph.Network.{Graph, new_graph, add_channel}

pub record Files (T L : Type 0) : Type 0 where
  -- os.Open, and a decoder of encoding/json on what it reads
  pub open_file : String → L → Result T
  pub decode : T → Result (Map Channel)
  -- os.Stat, and whether its error is that there is no such file
  pub exists : String → L → Bool
  pub is_missing : String → L → Bool
  pub mkdir : String → L → Result ℕ × L
  -- os.Create, and an encoder of encoding/json to the file
  pub create : String → L → Result ℕ × L
  pub encode : String → Map Channel → L → Result ℕ × L
  pub rename : String → String → L → Result ℕ × L

-- the loop of LoadGraphFromFile over the decoded channels: AddChannel writes through the pointer in the map
unfoldable pub add_channels : Map Channel → Graph → Graph
unfolding add_channel
add_channels [] g = g
add_channels ((id, c) ∷ channels) g =
    let added = add_channel c g in
    add_channels channels (record added.0 { channels = insert id added.1 added.0.channels })

abbrev pub loaded : Map Channel → Graph
loaded channels = add_channels channels (record new_graph { channels = channels })

abbrev pub old_name : String → String
old_name name = str_append name ".old"

abbrev pub tmp_name : String → String
tmp_name name = str_append name ".tmp"

abbrev pub path_of : String → String → String
path_of dir filename = str_append dir (str_append "/" filename)

-- with no file there is a new graph, and any other error ends the program
abbrev pub or_new : Error → Result Graph
or_new no_graph_to_load = ok new_graph
or_new _ = err panic

module _ {T L : Type 0} (files : Files T L) where
  -- the open file: the graph's, or else the old one
  unfoldable pub open_graph : String → L → Result T
  open_graph name l = elim (files.open_file name l) [
    | ok text ↦ ok text
    | err e ↦ elim (files.open_file (old_name name) l) [
      | ok text ↦ ok text
      | err e' ↦ err no_graph_to_load
    ]
  ]

  unfoldable pub load_graph_from_file : String → String → L → Result Graph
  unfolding open_graph add_channels
  load_graph_from_file dir filename l = do
    text ← open_graph (path_of dir filename) l
    channels ← files.decode text
    ok (loaded channels)

  -- of node/node.go
  unfoldable pub get_graph_from_file : String → String → L → Result Graph
  unfolding load_graph_from_file
  get_graph_from_file dir filename l = elim (load_graph_from_file dir filename l) [
    | ok g ↦ ok g
    | err e ↦ or_new e
  ]

  unfoldable pub serialize_to_file : String → Graph → L → Result ℕ × L
  serialize_to_file name g l =
      let created = files.create (tmp_name name) l in
      elim created.0 [
        | err e ↦ (err e, created.1)
        | ok _ ↦ files.encode (tmp_name name) g.channels created.1
      ]

  abbrev pub make_dir : String → L → Result ℕ × L
  make_dir dir l = if files.is_missing dir l then files.mkdir dir l else (ok 0, l)

  -- the error of the first Rename is dropped
  abbrev pub keep_old : String → L → L
  keep_old name l = if files.exists name l then (files.rename name (old_name name) l).1 else l

  unfoldable pub save_graph_to_file : String → String → Graph → L → Result ℕ × L
  unfolding serialize_to_file
  save_graph_to_file dir filename g l =
      let made = make_dir dir l in
      let name = path_of dir filename in
      elim made.0 [
        | err e ↦ (err e, made.1)
        | ok _ ↦
            let written = serialize_to_file name g made.1 in
            elim written.0 [
              | err e ↦ (err e, written.1)
              | ok _ ↦ files.rename (tmp_name name) name (keep_old name written.1)
            ]
      ]
