-- ===== src/Tools/Registry.antt =====
-- dragon_voice/tools/registry.py: the registry of the tools. What a tool does to the world is its
-- function; `took` is the text of the rounded milliseconds that it took.
use tinker_box.Base.{List, ◌++◌, Option, none, some, map, Text, codes, text_dec}
use tinker_box.Base.Dict.{get, put}
use tinker_box.Tools.Value.{Value, str, num, Fields, field, end}

-- A result, or the text of the exception that is raised.
pub data Ran : Type 0 where
  returns : Value → Ran
  fails : Text → Ran

pub record Tool (W : Type 0) : Type 0 where
  pub name : Text
  pub run : Fields → W → Ran × W

-- `self._tools` is the list of the tools under their names, in the order in which the names came.
module _ {W : Type 0} where
  unfoldable pub register : Tool W → List (Text × Tool W) → List (Text × Tool W)
  unfolding put text_dec
  register tool tools = put text_dec tool.name tool tools

  unfoldable pub get_tool : Text → List (Text × Tool W) → Option (Tool W)
  unfolding get text_dec
  get_tool name tools = get text_dec name tools

  abbrev pub tool_names : List (Text × Tool W) → List Text
  tool_names tools = map (λ (p : Text × Tool W). p.0) tools

  unfoldable pub execute : List (Text × Tool W) → Text → Fields → Text → W → Fields × W
  unfolding get_tool
  execute tools name args took w = elim (get_tool name tools) [
    | none ↦ (field (codes "error") (str (codes "Tool '" ++ (name ++ codes "' not found"))) end, w)
    | some tool ↦
        let (ran, w') = tool.run args w in
        elim ran [
          | returns result ↦ (
            field (codes "tool") (str name)
                (field (codes "result") result (field (codes "execution_ms") (num took) end)),
            w',
          )
          | fails e ↦ (field (codes "tool") (str name) (field (codes "error") (str e) end), w')
        ]
  ]
