-- ===== src/Node/Files/Examples.antt =====
-- The theorems about the files, at files that are an association list.
use circular.Errors.{ok}
use circular.Prelude.{lookup, insert, delete, refl, ◌≡◌, String, [], ◌∷◌}
use circular.Graph.Examples.{network}
use circular.Node.Files.{path_of, save_graph_to_file, load_graph_from_file, serialize_to_file}
use circular.Graph.Network.{Graph}
use circular.Graph.Htlc.{parse_msat, parse_uint, parse_digits, trim_suffix, same_codes}
use circular.Node.Files.Roundtrip.{load-save_graph_to_file}
use circular.Node.Files.Safe.{IsKeptOrNew, save_graph_to_file-IsKeptOrNew}
use circular.Node.Files.Fixture.{disk, disk-IsFiles}

save_graph_to_file-IsKeptOrNew_example :
    IsKeptOrNew disk disk-IsFiles
      (path_of "circular" "graph.json")
      network.channels
      (("circular/graph.json", []) ∷ [])
      (save_graph_to_file disk "circular" "graph.json" network (("circular/graph.json", []) ∷ [])).1
save_graph_to_file-IsKeptOrNew_example =
    save_graph_to_file-IsKeptOrNew disk disk-IsFiles "circular" "graph.json" network
      (("circular/graph.json", []) ∷ [])

load-save_graph_to_file_example :
    (h : Graph) × (load_graph_from_file disk "circular" "graph.json"
        (save_graph_to_file disk "circular" "graph.json" network []).1
      ≡ ok h)
    × ((j : String) → lookup j h.channels ≡ lookup j network.channels)
unfolding save_graph_to_file serialize_to_file lookup insert delete parse_msat parse_uint
    parse_digits trim_suffix same_codes
load-save_graph_to_file_example =
    load-save_graph_to_file disk disk-IsFiles "circular" "graph.json" network [] 0
      (refl, (refl, tt)) ((refl, refl), ((refl, refl), tt)) refl
