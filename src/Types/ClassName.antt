-- ===== src/Types/ClassName.antt =====
-- src/types/class_name.rs: JVM internal class names. A `String` is the list of its UTF-8 bytes; the
-- characters that `parse` rejects are ASCII, and a byte of that value occurs in UTF-8 nowhere else.
use ferro_jtype.Prelude.{ℕ, Bool, ◌||◌, List, [], ◌∷◌, ◌==◌, if◌then◌else◌, any, codes, ℕ_discrete}
use ferro_jtype.Prelude.Result.{Result, ok, err}

pub data ClassName : Type 0 where
  class_name : List ℕ → ClassName

-- src/error.rs
pub data NameError : Type 0 where
  empty : NameError
  invalid : List ℕ → NameError

abbrev pub as_str : ClassName → List ℕ
as_str (class_name bytes) = bytes

-- '.', ';', '[', '(' and ')'
abbrev pub is_forbidden : ℕ → Bool
is_forbidden c = c == b'.' || c == b';' || c == b'[' || c == b'(' || c == b')'

unfoldable pub parse : List ℕ → Result NameError ClassName
parse [] = err empty
parse (c ∷ cs) =
    if any is_forbidden (c ∷ cs) then err (invalid (c ∷ cs)) else ok (class_name (c ∷ cs))

abbrev pub java_lang_string : ClassName
java_lang_string = class_name (codes "java/lang/String")

abbrev pub java_lang_object : ClassName
java_lang_object = class_name (codes "java/lang/Object")

abbrev pub java_lang_class : ClassName
java_lang_class = class_name (codes "java/lang/Class")

abbrev pub java_lang_throwable : ClassName
java_lang_throwable = class_name (codes "java/lang/Throwable")

abbrev pub java_lang_invoke_method_handle : ClassName
java_lang_invoke_method_handle = class_name (codes "java/lang/invoke/MethodHandle")

abbrev pub java_lang_invoke_method_type : ClassName
java_lang_invoke_method_type = class_name (codes "java/lang/invoke/MethodType")

unfoldable pub ClassName-discrete : Discrete ClassName
ClassName-discrete = hlevel ℕ_discrete
