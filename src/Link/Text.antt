-- ===== src/Link/Text.antt =====
-- The texts of the errors of the host's link.rs, as their characters.
use esp32_dap_proxy.Prelude.{ℕ, List, ◌++◌}
use esp32_dap_proxy.Prelude.Text.{codes}
use esp32_dap_proxy.Prelude.Numbers.{decimal}
use esp32_dap_proxy.Link.{LinkError, io, disconnected, timeout, frame_too_large, garbage}

-- `fmt` of `Display`, with the text of the std error that an `Io` holds as an argument.
unfoldable pub display : List ℕ → LinkError → List ℕ
display io_text io = codes "链路 IO 错误: " ++ io_text
display io_text disconnected = codes "链路已断开"
display io_text timeout = codes "链路超时"
display io_text (frame_too_large n) = codes "帧长度非法: " ++ decimal n
display io_text garbage = codes "链路数据无法同步"
