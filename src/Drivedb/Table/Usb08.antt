-- ===== src/Drivedb/Table/Usb08.antt =====
-- backends/exec/drivedb.h, lines 6619 to 6768.
use Prim.Native.String.{String}

unfoldable pub usb_text_08 : String
usb_text_08 =
    "    \"-d usbjmicron,x\"\n  },\n  { \"USB: Generic JMicron adapter; JMicron\",\n    \"0x152d:0x2337\",\n    \"\",\n    \"\",\n    \"-d usbjmicron\"\n  },\n  { \"USB: ; JMicron JM20337/8\", // USB->SATA+PATA, USB+SATA->PATA\n    \"0x152d:0x2338\",\n    \"\", // 0x0100\n    \"\",\n    \"-d usbjmicron\"\n  },\n  { \"USB: ; JMicron JM20339\", // USB->SATA\n    \"0x152d:0x2339\",\n    \"\", // 0x0100\n    \"\",\n    \"-d usbjmicron,x\"\n  },\n  { \"USB: ; JMicron\", // USB+SATA->SATA\n    \"0x152d:0x2351\",  // e.g. Verbatim Portable Hard Drive 500Gb\n    \"\", // 0x0100\n    \"\",\n    \"-d sat\"\n  },\n  { \"USB: ; JMicron\", // USB->SATA\n    \"0x152d:0x2352\",\n    \"\", // 0x0100\n    \"\",\n    \"-d usbjmicron,x\"\n  },\n  { \"USB: ; JMicron\", // USB->SATA\n    \"0x152d:0x2509\",\n    \"0x0100\", // old firmware\n    \"\",\n    \"-d usbjmicron,x\"\n  },\n  { \"USB: ; JMicron\", // USB->SATA\n    \"0x152d:0x2509\",\n    \"0x0107\", // newer firmware supports SAT\n    \"\",\n    \"-d sat\"\n  },\n  { \"USB: ; JMicron JMS566\", // USB3->SATA\n    \"0x152d:0x2566\", // e.g. Chieftec CEB-7035S\n    \"\", // 0x0114\n    \"\",\n    \"-d usbjmicron,x\"\n  },\n  { \"USB: ; JMicron JMS567\", // USB3->SATA\n    \"0x152d:0x2567\",\n    \"\", // 0x0117, Chieftec CEB-7053S\n    \"\",\n    \"-d sat\"\n  },\n  { \"USB: ; JMicron\",\n    \"0x152d:0x2590\",\n    \"\", // 0x0x8105 (ticket #550)\n    \"\",\n    \"-d sat\"\n  },\n  { \"USB: ; JMicron JMS567\", // USB2/3->SATA\n    \"0x152d:0x3562\",\n    \"\", // 0x0310, StarTech S358BU33ERM (port multiplier, ticket #508)\n    \"\",\n    \"-d sat\"\n  },\n  { \"USB: ; JMicron\", // USB3->SATA\n    \"0x152d:0x3569\",\n    \"\", // 0x0203\n    \"\",\n    \"-d sat\"\n  },\n  { \"USB: ; JMicron\",\n    \"0x152d:0x(578e|a5(78|80)|b567)\",\n    \"\", // 0x578e(0x1402): Intenso Memory Center, 0xa578: Sabrent EC-DFLT,\n    \"\", // 0xa580(0x003): CENMATE 2 Bay RAID Enclosure, 0xb567: Fantec AD-U3S\n    \"-d sat\"\n  },\n  { \"USB: ; JMicron JMS561\", // USB3->2xSATA\n    \"0x152d:0x[8a]561\",\n    \"\", // 0x8561: 0x0107\n    \"\",\n    \"-d sat\"\n  },\n  { \"USB: ; JMicron JMS581\", // USB3.2->SATA+PCIe (NVMe)\n    \"0x152d:0xb581\",\n    \"\", // 0x4403: Unitek M.2 NVMe/SATA USB adapter\n    \"\",\n    \"-d sntjmicron/sat\"\n  },\n  // PNY\n  { \"USB: ; PNY\",\n    \"0x154b:0x(5678|8001|f009)\",\n    \"\", // 0x5678: 0x5408\n    \"\",\n    \"-d sat\"\n  },\n  // Pinas\n  { \"USB: ; Pinas\",\n    \"0x1741:0x1156\", // Argon EON, device #2\n    \"\", // 0x0100\n    \"\",\n    \"-d sat\"\n  },\n  // ASMedia\n  { \"USB: ; ASMedia ASM236x\", // USB->PCIe (NVMe)\n    \"0x174c:0x236[24]\",\n    \"\",\n    \"\",\n    \"-d sntasmedia\"\n  },\n  { \"USB: ; ASMedia ASM2464PD\", // USB4->PCIe (NVMe) in USB3\n    \"0x174c:0x2463\",\n    \"\",\n    \"\",\n    \"-d sntasmedia\"\n  },\n  { \"USB: ; ASMedia\",\n    \"0x174c:0x....\",\n    \"\",\n    \"\",\n    \"-d sat\"\n  },\n  // ASMedia\n  { \"USB: ; ASMedia ASM1352-PM\", // USB3->2xSATA\n    \"0x174d:0x1352\",\n    \"\", // 0x0100\n    \"\",\n    \"-d sat\"\n  },\n  // Pinas\n  { \"USB: ; Pinas\",\n    \"0x174e:0x1155\", // Argon EON, device #1\n    \"\", // 0x0100\n    \"\",\n    \"-d sat\"\n  },\n  // LucidPort\n  { \"USB: ; LucidPORT USB300\", // RaidSonic ICY BOX IB-110StU3-B, Sharkoon SATA QuickPort H3\n    \"0x1759:0x500[02]\", // 0x5000: USB 2.0, 0x5002: USB 3.0\n    \"\",\n    \"\",\n    \"-d sat\"\n  },\n  { \"USB: ; LucidPort\", // Fuj:tech SATA-USB3 dock\n    \"0x1759:0x5100\",\n    \"\", // 0x2580\n    \"\","
