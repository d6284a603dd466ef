-- ===== src/SmallViews/FilePicker.antt =====
-- forensic-ui/src/components/FilePickerInput.tsx: the input that shows the name of the chosen file.
use forensic_chain.Common.{String, Bool, Option, none, or_else, is_present}

-- `fileName`
pub record State : Type 0 where
  pub file_name : Option String

abbrev pub init : State
init = record { file_name = none }

-- `onChange`, with the name of the first file, if there is one.
unfoldable pub picked : Option String → State → State
picked name s = record s { file_name = name }

-- The text beside the button, and whether it is highlighted.
unfoldable pub view : State → String × Bool
view s = (or_else s.file_name "No file chosen", is_present s.file_name)
