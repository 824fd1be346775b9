-- ===== src/Answer.antt =====
-- The text that a server sends back, over a socket (libgstd/gstd_socket.c) and over HTTP
-- (libgstd/gstd_http.c): the code of the command, its description, and the response or null.
use gstd_1_x.Base.{Text, codes, ◌++◌, Option, none, some, decimal}
use gstd_1_x.ReturnCode.{ReturnCode, eok, number_of, code_to_string}
use gstd_1_x.Action.{Exit, done, stop, fault}

-- What a command returns to its caller, if it returns.
abbrev pub code_of : Exit {0} Unit → Option ReturnCode
code_of (done _) = some eok
code_of (stop code) = some code
code_of fault = none

abbrev pub or_null : Option Text → Text
or_null none = codes "null"
or_null (some output) = output

-- The format of gstd_socket_callback and do_request.
unfoldable pub answer : ReturnCode → Option Text → Text
unfolding number_of code_to_string
answer code output =
    codes "{\n  \"code\" : "
    ++ (decimal (number_of code)
        ++ (codes ",\n  \"description\" : \""
            ++ (code_to_string (number_of code)
                ++ (codes "\",\n  \"response\" : " ++ (or_null output ++ codes "\n}")))))
