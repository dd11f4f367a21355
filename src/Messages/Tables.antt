-- ===== src/Messages/Tables.antt =====
-- include/string.h: the messages of the switches of strerror and strsignal, by their number.
use jaclibc.Base.{ℕ, List, [], ◌∷◌}

-- "Unknown error"
abbrev pub unknown_error : List ℕ
unknown_error = 85 ∷ 110 ∷ 107 ∷ 110 ∷ 111 ∷ 119 ∷ 110 ∷ 32 ∷ 101 ∷ 114 ∷ 114 ∷ 111 ∷ 114 ∷ []

-- "Unknown signal"
abbrev pub unknown_signal : List ℕ
unknown_signal = 85 ∷ 110 ∷ 107 ∷ 110 ∷ 111 ∷ 119 ∷ 110 ∷ 32 ∷ 115 ∷ 105 ∷ 103 ∷ 110 ∷ 97 ∷ 108 ∷ []

-- From "Success" for 0 to "Directory not empty" for ENOTEMPTY, which is 39.
abbrev pub error_table : List (List ℕ)
error_table =
    (83 ∷ 117 ∷ 99 ∷ 99 ∷ 101 ∷ 115 ∷ 115 ∷ [])
    ∷ (79 ∷ 112 ∷ 101 ∷ 114 ∷ 97 ∷ 116 ∷ 105 ∷ 111 ∷ 110 ∷ 32 ∷ 110 ∷ 111 ∷ 116 ∷ 32 ∷ 112 ∷ 101
        ∷ 114 ∷ 109 ∷ 105 ∷ 116 ∷ 116 ∷ 101 ∷ 100 ∷ [])
    ∷ (78 ∷ 111 ∷ 32 ∷ 115 ∷ 117 ∷ 99 ∷ 104 ∷ 32 ∷ 102 ∷ 105 ∷ 108 ∷ 101 ∷ 32 ∷ 111 ∷ 114 ∷ 32 ∷ 100
        ∷ 105 ∷ 114 ∷ 101 ∷ 99 ∷ 116 ∷ 111 ∷ 114 ∷ 121 ∷ [])
    ∷ (78 ∷ 111 ∷ 32 ∷ 115 ∷ 117 ∷ 99 ∷ 104 ∷ 32 ∷ 112 ∷ 114 ∷ 111 ∷ 99 ∷ 101 ∷ 115 ∷ 115 ∷ [])
    ∷ (73 ∷ 110 ∷ 116 ∷ 101 ∷ 114 ∷ 114 ∷ 117 ∷ 112 ∷ 116 ∷ 101 ∷ 100 ∷ 32 ∷ 115 ∷ 121 ∷ 115 ∷ 116
        ∷ 101 ∷ 109 ∷ 32 ∷ 99 ∷ 97 ∷ 108 ∷ 108 ∷ [])
    ∷ (73 ∷ 47 ∷ 79 ∷ 32 ∷ 101 ∷ 114 ∷ 114 ∷ 111 ∷ 114 ∷ [])
    ∷ (78 ∷ 111 ∷ 32 ∷ 115 ∷ 117 ∷ 99 ∷ 104 ∷ 32 ∷ 100 ∷ 101 ∷ 118 ∷ 105 ∷ 99 ∷ 101 ∷ 32 ∷ 111 ∷ 114
        ∷ 32 ∷ 97 ∷ 100 ∷ 100 ∷ 114 ∷ 101 ∷ 115 ∷ 115 ∷ [])
    ∷ (65 ∷ 114 ∷ 103 ∷ 117 ∷ 109 ∷ 101 ∷ 110 ∷ 116 ∷ 32 ∷ 108 ∷ 105 ∷ 115 ∷ 116 ∷ 32 ∷ 116 ∷ 111
        ∷ 111 ∷ 32 ∷ 108 ∷ 111 ∷ 110 ∷ 103 ∷ [])
    ∷ (69 ∷ 120 ∷ 101 ∷ 99 ∷ 32 ∷ 102 ∷ 111 ∷ 114 ∷ 109 ∷ 97 ∷ 116 ∷ 32 ∷ 101 ∷ 114 ∷ 114 ∷ 111
        ∷ 114 ∷ [])
    ∷ (66 ∷ 97 ∷ 100 ∷ 32 ∷ 102 ∷ 105 ∷ 108 ∷ 101 ∷ 32 ∷ 100 ∷ 101 ∷ 115 ∷ 99 ∷ 114 ∷ 105 ∷ 112
        ∷ 116 ∷ 111 ∷ 114 ∷ [])
    ∷ (78 ∷ 111 ∷ 32 ∷ 99 ∷ 104 ∷ 105 ∷ 108 ∷ 100 ∷ 32 ∷ 112 ∷ 114 ∷ 111 ∷ 99 ∷ 101 ∷ 115 ∷ 115
        ∷ 101 ∷ 115 ∷ [])
    ∷ (84 ∷ 114 ∷ 121 ∷ 32 ∷ 97 ∷ 103 ∷ 97 ∷ 105 ∷ 110 ∷ [])
    ∷ (79 ∷ 117 ∷ 116 ∷ 32 ∷ 111 ∷ 102 ∷ 32 ∷ 109 ∷ 101 ∷ 109 ∷ 111 ∷ 114 ∷ 121 ∷ [])
    ∷ (80 ∷ 101 ∷ 114 ∷ 109 ∷ 105 ∷ 115 ∷ 115 ∷ 105 ∷ 111 ∷ 110 ∷ 32 ∷ 100 ∷ 101 ∷ 110 ∷ 105 ∷ 101
        ∷ 100 ∷ [])
    ∷ (66 ∷ 97 ∷ 100 ∷ 32 ∷ 97 ∷ 100 ∷ 100 ∷ 114 ∷ 101 ∷ 115 ∷ 115 ∷ [])
    ∷ (66 ∷ 108 ∷ 111 ∷ 99 ∷ 107 ∷ 32 ∷ 100 ∷ 101 ∷ 118 ∷ 105 ∷ 99 ∷ 101 ∷ 32 ∷ 114 ∷ 101 ∷ 113
        ∷ 117 ∷ 105 ∷ 114 ∷ 101 ∷ 100 ∷ [])
    ∷ (68 ∷ 101 ∷ 118 ∷ 105 ∷ 99 ∷ 101 ∷ 32 ∷ 111 ∷ 114 ∷ 32 ∷ 114 ∷ 101 ∷ 115 ∷ 111 ∷ 117 ∷ 114
        ∷ 99 ∷ 101 ∷ 32 ∷ 98 ∷ 117 ∷ 115 ∷ 121 ∷ [])
    ∷ (70 ∷ 105 ∷ 108 ∷ 101 ∷ 32 ∷ 101 ∷ 120 ∷ 105 ∷ 115 ∷ 116 ∷ 115 ∷ [])
    ∷ (67 ∷ 114 ∷ 111 ∷ 115 ∷ 115 ∷ 45 ∷ 100 ∷ 101 ∷ 118 ∷ 105 ∷ 99 ∷ 101 ∷ 32 ∷ 108 ∷ 105 ∷ 110
        ∷ 107 ∷ [])
    ∷ (78 ∷ 111 ∷ 32 ∷ 115 ∷ 117 ∷ 99 ∷ 104 ∷ 32 ∷ 100 ∷ 101 ∷ 118 ∷ 105 ∷ 99 ∷ 101 ∷ [])
    ∷ (78 ∷ 111 ∷ 116 ∷ 32 ∷ 97 ∷ 32 ∷ 100 ∷ 105 ∷ 114 ∷ 101 ∷ 99 ∷ 116 ∷ 111 ∷ 114 ∷ 121 ∷ [])
    ∷ (73 ∷ 115 ∷ 32 ∷ 97 ∷ 32 ∷ 100 ∷ 105 ∷ 114 ∷ 101 ∷ 99 ∷ 116 ∷ 111 ∷ 114 ∷ 121 ∷ [])
    ∷ (73 ∷ 110 ∷ 118 ∷ 97 ∷ 108 ∷ 105 ∷ 100 ∷ 32 ∷ 97 ∷ 114 ∷ 103 ∷ 117 ∷ 109 ∷ 101 ∷ 110 ∷ 116
        ∷ [])
    ∷ (70 ∷ 105 ∷ 108 ∷ 101 ∷ 32 ∷ 116 ∷ 97 ∷ 98 ∷ 108 ∷ 101 ∷ 32 ∷ 111 ∷ 118 ∷ 101 ∷ 114 ∷ 102
        ∷ 108 ∷ 111 ∷ 119 ∷ [])
    ∷ (84 ∷ 111 ∷ 111 ∷ 32 ∷ 109 ∷ 97 ∷ 110 ∷ 121 ∷ 32 ∷ 111 ∷ 112 ∷ 101 ∷ 110 ∷ 32 ∷ 102 ∷ 105
        ∷ 108 ∷ 101 ∷ 115 ∷ [])
    ∷ (78 ∷ 111 ∷ 116 ∷ 32 ∷ 97 ∷ 32 ∷ 84 ∷ 84 ∷ 89 ∷ [])
    ∷ (84 ∷ 101 ∷ 120 ∷ 116 ∷ 32 ∷ 102 ∷ 105 ∷ 108 ∷ 101 ∷ 32 ∷ 98 ∷ 117 ∷ 115 ∷ 121 ∷ [])
    ∷ (70 ∷ 105 ∷ 108 ∷ 101 ∷ 32 ∷ 116 ∷ 111 ∷ 111 ∷ 32 ∷ 108 ∷ 97 ∷ 114 ∷ 103 ∷ 101 ∷ [])
    ∷ (78 ∷ 111 ∷ 32 ∷ 115 ∷ 112 ∷ 97 ∷ 99 ∷ 101 ∷ 32 ∷ 108 ∷ 101 ∷ 102 ∷ 116 ∷ 32 ∷ 111 ∷ 110 ∷ 32
        ∷ 100 ∷ 101 ∷ 118 ∷ 105 ∷ 99 ∷ 101 ∷ [])
    ∷ (73 ∷ 108 ∷ 108 ∷ 101 ∷ 103 ∷ 97 ∷ 108 ∷ 32 ∷ 115 ∷ 101 ∷ 101 ∷ 107 ∷ [])
    ∷ (82 ∷ 101 ∷ 97 ∷ 100 ∷ 45 ∷ 111 ∷ 110 ∷ 108 ∷ 121 ∷ 32 ∷ 102 ∷ 105 ∷ 108 ∷ 101 ∷ 32 ∷ 115
        ∷ 121 ∷ 115 ∷ 116 ∷ 101 ∷ 109 ∷ [])
    ∷ (84 ∷ 111 ∷ 111 ∷ 32 ∷ 109 ∷ 97 ∷ 110 ∷ 121 ∷ 32 ∷ 108 ∷ 105 ∷ 110 ∷ 107 ∷ 115 ∷ [])
    ∷ (80 ∷ 105 ∷ 112 ∷ 101 ∷ 32 ∷ 98 ∷ 114 ∷ 111 ∷ 107 ∷ 101 ∷ 110 ∷ [])
    ∷ (79 ∷ 117 ∷ 116 ∷ 115 ∷ 105 ∷ 100 ∷ 101 ∷ 32 ∷ 111 ∷ 102 ∷ 32 ∷ 100 ∷ 111 ∷ 109 ∷ 97 ∷ 105
        ∷ 110 ∷ [])
    ∷ (79 ∷ 117 ∷ 116 ∷ 115 ∷ 105 ∷ 100 ∷ 101 ∷ 32 ∷ 111 ∷ 102 ∷ 32 ∷ 114 ∷ 97 ∷ 110 ∷ 103 ∷ 101
        ∷ [])
    ∷ (82 ∷ 101 ∷ 115 ∷ 111 ∷ 117 ∷ 114 ∷ 99 ∷ 101 ∷ 32 ∷ 100 ∷ 101 ∷ 97 ∷ 100 ∷ 108 ∷ 111 ∷ 99
        ∷ 107 ∷ 32 ∷ 97 ∷ 118 ∷ 111 ∷ 105 ∷ 100 ∷ 101 ∷ 100 ∷ [])
    ∷ (70 ∷ 105 ∷ 108 ∷ 101 ∷ 32 ∷ 110 ∷ 97 ∷ 109 ∷ 101 ∷ 32 ∷ 116 ∷ 111 ∷ 111 ∷ 32 ∷ 108 ∷ 111
        ∷ 110 ∷ 103 ∷ [])
    ∷ (78 ∷ 111 ∷ 32 ∷ 108 ∷ 111 ∷ 99 ∷ 107 ∷ 115 ∷ 32 ∷ 97 ∷ 118 ∷ 97 ∷ 105 ∷ 108 ∷ 97 ∷ 98 ∷ 108
        ∷ 101 ∷ [])
    ∷ (70 ∷ 117 ∷ 110 ∷ 99 ∷ 116 ∷ 105 ∷ 111 ∷ 110 ∷ 32 ∷ 110 ∷ 111 ∷ 116 ∷ 32 ∷ 105 ∷ 109 ∷ 112
        ∷ 108 ∷ 101 ∷ 109 ∷ 101 ∷ 110 ∷ 116 ∷ 101 ∷ 100 ∷ [])
    ∷ (68 ∷ 105 ∷ 114 ∷ 101 ∷ 99 ∷ 116 ∷ 111 ∷ 114 ∷ 121 ∷ 32 ∷ 110 ∷ 111 ∷ 116 ∷ 32 ∷ 101 ∷ 109
        ∷ 112 ∷ 116 ∷ 121 ∷ [])
    ∷ []

-- From "Hangup" for SIGHUP, which is 1, to "Terminated" for SIGTERM, which is 15.
abbrev pub signal_table : List (List ℕ)
signal_table =
    unknown_signal
    ∷ (72 ∷ 97 ∷ 110 ∷ 103 ∷ 117 ∷ 112 ∷ [])
    ∷ (73 ∷ 110 ∷ 116 ∷ 101 ∷ 114 ∷ 114 ∷ 117 ∷ 112 ∷ 116 ∷ [])
    ∷ (81 ∷ 117 ∷ 105 ∷ 116 ∷ [])
    ∷ (73 ∷ 108 ∷ 108 ∷ 101 ∷ 103 ∷ 97 ∷ 108 ∷ 32 ∷ 105 ∷ 110 ∷ 115 ∷ 116 ∷ 114 ∷ 117 ∷ 99 ∷ 116
        ∷ 105 ∷ 111 ∷ 110 ∷ [])
    ∷ (84 ∷ 114 ∷ 97 ∷ 99 ∷ 101 ∷ 47 ∷ 98 ∷ 114 ∷ 101 ∷ 97 ∷ 107 ∷ 112 ∷ 111 ∷ 105 ∷ 110 ∷ 116 ∷ 32
        ∷ 116 ∷ 114 ∷ 97 ∷ 112 ∷ [])
    ∷ (65 ∷ 98 ∷ 111 ∷ 114 ∷ 116 ∷ 101 ∷ 100 ∷ [])
    ∷ (66 ∷ 117 ∷ 115 ∷ 32 ∷ 101 ∷ 114 ∷ 114 ∷ 111 ∷ 114 ∷ [])
    ∷ (70 ∷ 108 ∷ 111 ∷ 97 ∷ 116 ∷ 105 ∷ 110 ∷ 103 ∷ 32 ∷ 112 ∷ 111 ∷ 105 ∷ 110 ∷ 116 ∷ 32 ∷ 101
        ∷ 120 ∷ 99 ∷ 101 ∷ 112 ∷ 116 ∷ 105 ∷ 111 ∷ 110 ∷ [])
    ∷ (75 ∷ 105 ∷ 108 ∷ 108 ∷ 101 ∷ 100 ∷ [])
    ∷ (85 ∷ 115 ∷ 101 ∷ 114 ∷ 32 ∷ 100 ∷ 101 ∷ 102 ∷ 105 ∷ 110 ∷ 101 ∷ 100 ∷ 32 ∷ 115 ∷ 105 ∷ 103
        ∷ 110 ∷ 97 ∷ 108 ∷ 32 ∷ 49 ∷ [])
    ∷ (83 ∷ 101 ∷ 103 ∷ 109 ∷ 101 ∷ 110 ∷ 116 ∷ 97 ∷ 116 ∷ 105 ∷ 111 ∷ 110 ∷ 32 ∷ 102 ∷ 97 ∷ 117
        ∷ 108 ∷ 116 ∷ [])
    ∷ (85 ∷ 115 ∷ 101 ∷ 114 ∷ 32 ∷ 100 ∷ 101 ∷ 102 ∷ 105 ∷ 110 ∷ 101 ∷ 100 ∷ 32 ∷ 115 ∷ 105 ∷ 103
        ∷ 110 ∷ 97 ∷ 108 ∷ 32 ∷ 50 ∷ [])
    ∷ (66 ∷ 114 ∷ 111 ∷ 107 ∷ 101 ∷ 110 ∷ 32 ∷ 112 ∷ 105 ∷ 112 ∷ 101 ∷ [])
    ∷ (65 ∷ 108 ∷ 97 ∷ 114 ∷ 109 ∷ 32 ∷ 99 ∷ 108 ∷ 111 ∷ 99 ∷ 107 ∷ [])
    ∷ (84 ∷ 101 ∷ 114 ∷ 109 ∷ 105 ∷ 110 ∷ 97 ∷ 116 ∷ 101 ∷ 100 ∷ [])
    ∷ []
