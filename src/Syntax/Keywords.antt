-- ===== src/Syntax/Keywords.antt =====
-- Candi_Compiler/cand_syntax.hpp, namespaces `characters`, `keywords`, `directives`: the constants
-- that the tokenizer compares with. A directive is a keyword behind '#'.
use cand_lang_proto.Base.{ℕ, List, ◌∷◌, bytes}

-- The end of input that `get` and `peek` report out of range.
abbrev pub eofile : ℕ
eofile = 0

abbrev pub block_comment : List ℕ
block_comment = bytes "///"

abbrev pub ellipsis : List ℕ
ellipsis = bytes "..."

abbrev pub include_ : List ℕ
include_ = bytes "include"

abbrev pub macro_ : List ℕ
macro_ = bytes "macro"

abbrev pub endmacro_ : List ℕ
endmacro_ = bytes "endmacro"

abbrev pub enter_ : List ℕ
enter_ = bytes "enter"

abbrev pub start_ : List ℕ
start_ = bytes "start"

abbrev pub use_ : List ℕ
use_ = bytes "use"

abbrev pub class_ : List ℕ
class_ = bytes "class"

abbrev pub obj_ : List ℕ
obj_ = bytes "obj"

abbrev pub private_ : List ℕ
private_ = bytes "private"

abbrev pub public_ : List ℕ
public_ = bytes "public"

abbrev pub const_ : List ℕ
const_ = bytes "const"

abbrev pub static_ : List ℕ
static_ = bytes "static"

abbrev pub if_ : List ℕ
if_ = bytes "if"

abbrev pub else_ : List ℕ
else_ = bytes "else"

abbrev pub elif_ : List ℕ
elif_ = bytes "elif"

abbrev pub while_ : List ℕ
while_ = bytes "while"

abbrev pub for_ : List ℕ
for_ = bytes "for"

abbrev pub switch_ : List ℕ
switch_ = bytes "switch"

abbrev pub case_ : List ℕ
case_ = bytes "case"

abbrev pub default_ : List ℕ
default_ = bytes "default"

abbrev pub break_ : List ℕ
break_ = bytes "break"

abbrev pub continue_ : List ℕ
continue_ = bytes "continue"

abbrev pub return_ : List ℕ
return_ = bytes "return"

abbrev pub print_ : List ℕ
print_ = bytes "print"

abbrev pub none_ : List ℕ
none_ = bytes "none"

abbrev pub value_ : List ℕ
value_ = bytes "value"

abbrev pub type_ : List ℕ
type_ = bytes "type"

abbrev pub identity_ : List ℕ
identity_ = bytes "identity"

abbrev pub int_ : List ℕ
int_ = bytes "int"

abbrev pub uint_ : List ℕ
uint_ = bytes "uint"

abbrev pub real_ : List ℕ
real_ = bytes "real"

abbrev pub byte_ : List ℕ
byte_ = bytes "byte"

abbrev pub bit_ : List ℕ
bit_ = bytes "bit"

abbrev pub str_ : List ℕ
str_ = bytes "str"

abbrev pub array_ : List ℕ
array_ = bytes "array"

abbrev pub pointer_ : List ℕ
pointer_ = bytes "pointer"

abbrev pub memory_ : List ℕ
memory_ = bytes "memory"

abbrev pub function_ : List ℕ
function_ = bytes "function"

-- `STRING_CONSTANT(#word)` of namespace `directives`.
abbrev pub directive : List ℕ → List ℕ
directive w = b'#' ∷ w
